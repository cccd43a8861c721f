-- ===== src/Ksh/Tokens.antt =====
-- The words that `execute` splits its line into.
use mathlib.Core.List.{append_assoc, append-nil}
use keyhole_os.Prelude.{
  ℕ, ◌+◌, ◌≡◌, ◌≢◌, refl, sym, ap, ◌∙◌, Bool, true, false, ◌==◌, if◌then◌else◌, List, [], ◌∷◌, ◌++◌,
  length, arith, Bool-cases, inl, inr,
}
use keyhole_os.Ksh.{is_empty, count_tokens, split_tokens, tokens, join_from, join}

-- The array of tokens has as many places as the first loop counted.
abbrev is_in : List ℕ → Bool
is_in [] = false
is_in (c ∷ cs) = true

length-split_tokens :
    (input token : List ℕ) (n : ℕ)
    → count_tokens input (is_in token) n ≡ n + length (split_tokens input token)
unfolding count_tokens split_tokens
length-split_tokens [] [] n = ground arith
length-split_tokens [] (t ∷ ts) n = ground arith
length-split_tokens (c ∷ cs) token n = elim (Bool-cases (c == b' ')) [
  | inl space ↦ rw space (ends token (length-split_tokens cs []))
  | inr letter ↦ rw letter (
      ap (λ b. count_tokens cs b n) (sym (grown token))
      ∙ length-split_tokens cs (token ++ (c ∷ [])) n)
]
  where
    grown : (token : List ℕ) → is_in (token ++ (c ∷ [])) ≡ true
    grown [] = refl
    grown (t ∷ ts) = refl

    ends :
        (token : List ℕ)
        → ((m : ℕ) → count_tokens cs false m ≡ m + length (split_tokens cs []))
        → count_tokens cs false (if is_in token then n + 1 else n)
          ≡ n + length (if is_empty token then split_tokens cs [] else token ∷ split_tokens cs [])
    ends [] rest = rest n
    ends (t ∷ ts) rest = omega (arith, rest (n + 1))

-- A word: bytes, none of them a space.
abbrev pub NoSpace : List ℕ → Type 0
NoSpace [] = Unit {0}
NoSpace (c ∷ cs) = (c ≢ b' ') × NoSpace cs

abbrev pub AreWords : List (List ℕ) → Type 0
AreWords [] = Unit {0}
AreWords (w ∷ ws) = (is_empty w ≡ false) × NoSpace w × AreWords ws

NoSpace-snoc : (w : List ℕ) (c : ℕ) → NoSpace w → c ≢ b' ' → NoSpace (w ++ (c ∷ []))
NoSpace-snoc [] c h ne = (ne, tt)
NoSpace-snoc (x ∷ w) c h ne = (h.0, NoSpace-snoc w c h.1 ne)

pub split_tokens-AreWords :
    (input token : List ℕ) → NoSpace token → AreWords (split_tokens input token)
unfolding split_tokens
split_tokens-AreWords [] [] h = tt
split_tokens-AreWords [] (t ∷ ts) h = (refl, h, tt)
split_tokens-AreWords (c ∷ cs) token h = elim (Bool-cases (c == b' ')) [
  | inl space ↦ rw space (ends token h (split_tokens-AreWords cs [] tt))
  | inr letter ↦
      rw letter
        (split_tokens-AreWords cs (token ++ (c ∷ [])) (NoSpace-snoc token c h (ground arith)))
]
  where
    ends :
        (token : List ℕ)
        → NoSpace token
        → AreWords (split_tokens cs [])
        → AreWords (if is_empty token then split_tokens cs [] else token ∷ split_tokens cs [])
    ends [] h rest = rest
    ends (t ∷ ts) h rest = (refl, h, rest)

-- The characters of a word are gathered.
split_word :
    (w rest token : List ℕ)
    → NoSpace w
    → split_tokens (w ++ rest) token ≡ split_tokens rest (token ++ w)
unfolding split_tokens
split_word [] rest token h = ap (λ t. split_tokens rest t) (sym (append-nil token))
split_word (c ∷ w) rest token h =
    let plain : (c == b' ') ≡ false = ground (arith, h.0) in
    rw plain (
      split_word w rest (token ++ (c ∷ [])) h.1
      ∙ ap (λ t. split_tokens rest t) (append_assoc token (c ∷ []) w))

-- Words joined by spaces are split into the same words again.
split-join_from :
    (ws : List (List ℕ)) (token : List ℕ)
    → AreWords ws
    → is_empty token ≡ false
    → split_tokens (join_from false ws) token ≡ token ∷ ws
unfolding join_from split_tokens
split-join_from [] [] h ne = cc
split-join_from [] (t ∷ ts) h ne = refl
split-join_from (w ∷ ws) token h ne =
    rw ne (
      ap (λ l. token ∷ l) (split_word w (join_from false ws) [] h.1 ∙ split-join_from ws w h.2 h.0))

-- the bytes of a line that are no spaces
abbrev pub letters : List ℕ → List ℕ
letters [] = []
letters (c ∷ cs) = if c == b' ' then letters cs else c ∷ letters cs

abbrev pub concat : List (List ℕ) → List ℕ
concat [] = []
concat (w ∷ ws) = w ++ concat ws

concat-split_tokens :
    (input token : List ℕ) → concat (split_tokens input token) ≡ token ++ letters input
unfolding split_tokens
concat-split_tokens [] [] = refl
concat-split_tokens [] (t ∷ ts) = refl
concat-split_tokens (c ∷ cs) token = elim (Bool-cases (c == b' ')) [
  | inl space ↦ rw space (ends token (concat-split_tokens cs []))
  | inr letter ↦
      rw letter
        (concat-split_tokens cs (token ++ (c ∷ [])) ∙ append_assoc token (c ∷ []) (letters cs))
]
  where
    ends :
        (token : List ℕ)
        → concat (split_tokens cs []) ≡ letters cs
        → concat (if is_empty token then split_tokens cs [] else token ∷ split_tokens cs [])
          ≡ token ++ letters cs
    ends [] rest = rest
    ends (t ∷ ts) rest = ap (λ l. (t ∷ ts) ++ l) rest

-- The second loop of `execute` copies as many words as the first one counted, so it fills the array of
-- tokens that was made for that number, and no place behind it.
pub tokens_count : (input : List ℕ) → count_tokens input false 0 ≡ length (tokens input)
tokens_count input = length-split_tokens input [] 0 ∙ omega arith

-- A space ends a word: what stands in front of it and what stands behind it are split apart.
split_tokens-space :
    (a b token : List ℕ)
    → split_tokens (a ++ (b' ' ∷ b)) token ≡ split_tokens a token ++ split_tokens b []
unfolding split_tokens
split_tokens-space [] b [] = refl
split_tokens-space [] b (t ∷ ts) = refl
split_tokens-space (c ∷ cs) b token = elim (Bool-cases (c == b' ')) [
  | inl space ↦ rw space (ends token _ _ _ (split_tokens-space cs b []))
  | inr letter ↦ rw letter (split_tokens-space cs b (token ++ (c ∷ [])))
]
  where
    ends :
        (token : List ℕ) (xs ys zs : List (List ℕ))
        → xs ≡ ys ++ zs
        → (if is_empty token then xs else token ∷ xs)
          ≡ (if is_empty token then ys else token ∷ ys) ++ zs
    ends [] xs ys zs e = e
    ends (t ∷ ts) xs ys zs e = ap (λ l. (t ∷ ts) ∷ l) e

split_tokens-word : (w : List ℕ) → NoSpace w → is_empty w ≡ false → tokens w ≡ w ∷ []
unfolding split_tokens
split_tokens-word w h ne = ap tokens (sym (append-nil w)) ∙ split_word w [] [] h ∙ rw ne refl

-- Bytes without a space are one token, a space parts the tokens in front of it from those behind it, and no
-- token is empty or has a space: one behind the other they are the bytes of the line that are no spaces.
pub tokens-AreWords :
    (input rest w : List ℕ)
    → NoSpace w
    → is_empty w ≡ false
    → (tokens w ≡ w ∷ [])
      × (tokens (input ++ (b' ' ∷ rest)) ≡ tokens input ++ tokens rest)
      × AreWords (tokens input)
      × (concat (tokens input) ≡ letters input)
tokens-AreWords input rest w h ne = (
  split_tokens-word w h ne,
  split_tokens-space input rest [],
  split_tokens-AreWords input [] tt,
  concat-split_tokens input [],
)

-- Words that `sudo` or `echo` joins by spaces are split into the same words again.
pub tokens-join : (ws : List (List ℕ)) → AreWords ws → tokens (join ws) ≡ ws
unfolding join_from split_tokens
tokens-join [] h = refl
tokens-join (w ∷ ws) h = split_word w (join_from false ws) [] h.1 ∙ split-join_from ws w h.2 h.0
