-- ===== src/Strings/Copy.antt =====
-- `strcpy`, `strncpy`, `strcat` and `strjoin` of string.c, and `kmemcpy` of kmemory.c: what they
-- leave at the destination, and that they write nowhere else.
use keyhole_os.Prelude.{
  ℕ, zero, suc, ◌+◌, ◌-◌, ◌≤◌, ◌<◌, ◌≡◌, ◌≢◌, ◌∙◌, some, List, [], ◌∷◌, ◌++◌, arith, length, ◌⊎◌,
  ◌==◌, if◌then◌else◌, take, false, dec_lt, ltb, leb, ◌&&◌,
}
use keyhole_os.Memory.{Memory, store}
use keyhole_os.Strings.{copy_loop, strcpy, strcat, strncpy, strncpy_loop, kmemcpy, memcpy_loop}
use keyhole_os.Strings.Text.{IsString, Apart, IsString-frame, strlen-length}

-- `m'` is `m` but for the `n` bytes from `d` on.
abbrev pub SameOutside : (d n : ℕ) → Memory → Memory → Type 0
SameOutside d n m m' = (a : ℕ) → (a < d) ⊎ (d + n ≤ a) → m' a ≡ m a

-- the copy of a text whose bytes stand apart from its destination
record Copied (d : ℕ) (xs : List ℕ) (m m' : Memory) : Type 0 where
  text : IsString m' d xs
  same : SameOutside d (length xs + 1) m m'

-- one byte, then the rest
Copied-cons :
    {m m' : Memory} (d s x : ℕ) (xs : List ℕ)
    → m s ≡ x
    → x ≢ 0
    → Copied (d + 1) xs (store m d (m s)) m'
    → Copied d (x ∷ xs) m m'
Copied-cons {m} {m'} d s x xs e ne c = record { text = (first, ne, c.text); same = same }
  where
    first : m' d ≡ x
    first = c.same d (omega arith) ∙ ground arith

    same : SameOutside d (suc (length xs) + 1) m m'
    same a out = c.same a (omega arith) ∙ ground arith

-- `p` and `q` are the places that round `i` copies to and from.
copy_loop-Copied :
    (f d s i p q : ℕ) (m : Memory) (xs : List ℕ)
    → p ≡ d + i
    → q ≡ s + i
    → IsString m q xs
    → Apart p (length xs + 1) q (length xs + 1)
    → length xs < f
    → (m' : Memory) × (copy_loop f m d s i ≡ some m') × Copied p xs m m'
unfolding copy_loop
copy_loop-Copied zero d s i p q m xs ep eq h ap k = absurd (omega arith)
copy_loop-Copied (suc f) d s i p q m [] ep eq h ap k =
    (store m p 0, rw (← ep, ← eq, h), record { text = ground arith; same = λ a out. ground arith })
copy_loop-Copied (suc f) d s i p q m (x ∷ xs) ep eq h ap k =
    let (m', run, c) =
      copy_loop-Copied f d s (i + 1) (p + 1) (q + 1) (store m p (m q)) xs (omega arith)
        (omega arith) (IsString-frame (q + 1) xs h.2 (λ a lo hi. ground arith)) (omega arith)
        (omega arith) in
    let go : (m q == 0) ≡ false = ground (arith, h.0, h.1) in
    (m', rw (← ep, ← eq, go) run, Copied-cons p q x xs h.0 h.1 c)

-- With fuel beyond the length, `strcpy` of a text to a place apart from it leaves the text there
-- and changes no other byte.
pub strcpy_lem :
    (f d s : ℕ) (m : Memory) (xs : List ℕ)
    → IsString m s xs
    → Apart d (length xs + 1) s (length xs + 1)
    → length xs < f
    → (m' : Memory) × (strcpy f m d s ≡ some m')
      × IsString m' d xs
      × SameOutside d (length xs + 1) m m'
unfolding strcpy
strcpy_lem f d s m xs h ap k =
    let (m', run, c) = copy_loop-Copied f d s 0 d s m xs (omega arith) (omega arith) h ap k in
    (m', run, c.text, c.same)

IsString-append :
    {m : Memory} (d : ℕ) (xs ys : List ℕ)
    → IsString m d xs
    → (m' : Memory) → IsString m' (d + length xs) ys
    → ((a : ℕ) → a < d + length xs → m' a ≡ m a)
    → IsString m' d (xs ++ ys)
IsString-append d [] ys h m' k same = let e : d + 0 ≡ d = omega arith in rw e at k
IsString-append d (x ∷ xs) ys h m' k same =
    let e : d + suc (length xs) ≡ d + 1 + length xs = omega arith in
    (
      same d (omega arith) ∙ h.0,
      h.1,
      IsString-append (d + 1) xs ys h.2 m' (rw e at k) (λ a lt. same a (omega arith)),
    )

-- With fuel beyond both lengths, `strcat` of a text to another leaves the two joined at the
-- destination; it writes the second one's bytes and its zero, behind the first, and no other byte.
pub strcat_lem :
    (f d s : ℕ) (m : Memory) (xs ys : List ℕ)
    → IsString m d xs
    → IsString m s ys
    → Apart (d + length xs) (length ys + 1) s (length ys + 1)
    → length xs < f
    → length ys < f
    → (m' : Memory) × (strcat f m d s ≡ some m')
      × IsString m' d (xs ++ ys)
      × SameOutside (d + length xs) (length ys + 1) m m'
unfolding strcat
strcat_lem f d s m xs ys h k ap fx fy =
    let (m', run, c) =
      copy_loop-Copied f (d + length xs) s 0 (d + length xs) s m ys (omega arith) (omega arith) k ap
        fy in
    (
      m',
      rw (strlen-length f d m xs h fx, strcat) run,
      IsString-append d xs ys h m' c.text (λ a lt. c.same a (omega arith)),
      c.same,
    )

strncpy_loop-Copied :
    (n d s i p q : ℕ) (m : Memory) (xs : List ℕ)
    → p ≡ d + i
    → q ≡ s + i
    → IsString m q xs
    → Apart p (n + 1) q (length xs + 1)
    → Copied p (take n xs) m (strncpy_loop n m d s i)
unfolding strncpy_loop
strncpy_loop-Copied zero d s i p q m xs ep eq h ap =
    rw (← ep) (record { text = ground arith; same = λ a out. ground arith })
strncpy_loop-Copied (suc n) d s i p q m [] ep eq h ap =
    rw (← ep, ← eq, h) (record { text = ground arith; same = λ a out. ground arith })
strncpy_loop-Copied (suc n) d s i p q m (x ∷ xs) ep eq h ap =
    let c =
      strncpy_loop-Copied n d s (i + 1) (p + 1) (q + 1) (store m p (m q)) xs (omega arith)
        (omega arith) (IsString-frame (q + 1) xs h.2 (λ a lo hi. ground arith)) (omega arith) in
    let go : (m q == 0) ≡ false = ground (arith, h.0, h.1) in
    rw (← ep, ← eq, go) (Copied-cons p q x (take n xs) h.0 h.1 c)

-- This `strncpy` always ends the text: it leaves the first `n` bytes of the source text, all of it
-- if that is shorter, and then a zero, and changes no other byte.
pub strncpy_lem :
    (n d s : ℕ) (m : Memory) (xs : List ℕ)
    → IsString m s xs
    → Apart d (n + 1) s (length xs + 1)
    → IsString (strncpy m d s n) d (take n xs)
      × SameOutside d (length (take n xs) + 1) m (strncpy m d s n)
unfolding strncpy
strncpy_lem n d s m xs h ap =
    let c = strncpy_loop-Copied n d s 0 d s m xs (omega arith) (omega arith) h ap in
    (c.text, c.same)

memcpy_loop_lem :
    (n d s i p q : ℕ) (m : Memory)
    → p ≡ d + i
    → q ≡ s + i
    → Apart p n q n
    → (a : ℕ)
    → memcpy_loop n m d s i a ≡ (if leb p a && ltb a (p + n) then m (q + (a - p)) else m a)
unfolding memcpy_loop
memcpy_loop_lem zero d s i p q m ep eq ap a = ground arith
memcpy_loop_lem (suc n) d s i p q m ep eq ap a =
    let ih =
      memcpy_loop_lem n d s (i + 1) (p + 1) (q + 1) (store m p (m q)) (omega arith) (omega arith)
        (omega arith) a in
    rw (← ep, ← eq) (ih ∙ one)
  where
    one :
        (if leb (p + 1) a && ltb a (p + 1 + n)
          then store m p (m q) (q + 1 + (a - (p + 1)))
          else store m p (m q) a)
        ≡ (if leb p a && ltb a (p + suc n) then m (q + (a - p)) else m a)
    one = elim (dec_lt p a) [
      | yes lt ↦ let e : q + 1 + (a - (p + 1)) ≡ q + (a - p) = omega arith in rw e (ground arith)
      | no ge ↦ let e : q + (a - p) ≡ q = omega arith in rw e (ground arith)
    ]

-- `kmemcpy` between two regions that stand apart copies `n` bytes and changes no other byte.
pub kmemcpy_lem :
    (n d s : ℕ) (m : Memory)
    → Apart d n s n
    → (a : ℕ) → kmemcpy m d s n a ≡ (if leb d a && ltb a (d + n) then m (s + (a - d)) else m a)
unfolding kmemcpy
kmemcpy_lem n d s m ap a = memcpy_loop_lem n d s 0 d s m (omega arith) (omega arith) ap a
