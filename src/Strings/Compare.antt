-- ===== src/Strings/Compare.antt =====
-- `strcmp` and `strncmp` of string.c, which the commands and the file system compare names with.
use keyhole_os.Prelude.{
  ℕ, zero, suc, ◌+◌, ◌<◌, ◌≡◌, ◌≢◌, refl, some, List, [], ◌∷◌, arith, length, ◌==◌, if◌then◌else◌,
  Bool-cases, inl, inr, take, ◌↔◌,
}
use keyhole_os.Prelude.Int.{ℤ, pos}
use keyhole_os.Memory.{Memory}
use keyhole_os.Strings.{char_diff, strcmp, strncmp, strncmp_loop}
use keyhole_os.Strings.Text.{IsString}

-- the difference at the first place where two texts differ
pub order : List ℕ → List ℕ → ℤ
order [] [] = pos 0
order [] (y ∷ ys) = char_diff 0 y
order (x ∷ xs) [] = char_diff x 0
order (x ∷ xs) (y ∷ ys) = if x == y then order xs ys else char_diff x y

abbrev pub Bytes : List ℕ → Type 0
Bytes [] = Unit {0}
Bytes (x ∷ xs) = (x < 256) × (x ≢ 0) × Bytes xs

strcmp-order :
    (f a b : ℕ) (m : Memory) (xs ys : List ℕ)
    → IsString m a xs
    → IsString m b ys
    → length xs < f
    → strcmp f m a b ≡ some (order xs ys)
unfolding strcmp order
strcmp-order zero a b m xs ys h k fuel = absurd (omega arith)
strcmp-order (suc f) a b m [] [] h k fuel = ground arith
strcmp-order (suc f) a b m [] (y ∷ ys) h k fuel = ground arith
strcmp-order (suc f) a b m (x ∷ xs) [] h k fuel = ground arith
strcmp-order (suc f) a b m (x ∷ xs) (y ∷ ys) h k fuel =
    rw (h.0, k.0)
      (ground (arith, h.1, strcmp-order f (a + 1) (b + 1) m xs ys h.2 k.2 (omega arith)))

char_diff-ne : (x y : ℕ) → x < 256 → y < 256 → x ≢ y → char_diff x y ≢ pos 0
char_diff-ne x y hx hy ne = ground arith

order-zero : (xs ys : List ℕ) → Bytes xs → Bytes ys → order xs ys ≡ pos 0 → xs ≡ ys
unfolding order
order-zero [] [] h k e = refl
order-zero [] (y ∷ ys) h k e = absurd (char_diff-ne 0 y (omega arith) k.0 (omega arith) e)
order-zero (x ∷ xs) [] h k e = absurd (char_diff-ne x 0 h.0 (omega arith) h.1 e)
order-zero (x ∷ xs) (y ∷ ys) h k e = elim (Bool-cases (x == y)) [
  | inl eq ↦ ground (arith, order-zero xs ys h.2 k.2)
  | inr ne ↦ absurd (char_diff-ne x y h.0 k.0 (ground arith) (ground arith))
]

order_self : (xs : List ℕ) → order xs xs ≡ pos 0
unfolding order
order_self [] = refl
order_self (x ∷ xs) = ground (arith, order_self xs)

-- On two texts in memory `strcmp` answers, with fuel beyond the first one's length, and its answer
-- is 0 exactly when the texts are equal.
pub strcmp-zero :
    (f a b : ℕ) (m : Memory) (xs ys : List ℕ)
    → IsString m a xs
    → IsString m b ys
    → Bytes xs
    → Bytes ys
    → length xs < f
    → (r : ℤ) × (strcmp f m a b ≡ some r) × ((r ≡ pos 0) ↔ (xs ≡ ys))
strcmp-zero f a b m xs ys h k hx hy fuel = (
  order xs ys,
  strcmp-order f a b m xs ys h k fuel,
  (order-zero xs ys hx hy, λ e. rw (← e) (order_self xs)),
)

strncmp_loop-order :
    (n a b i : ℕ) (m : Memory) (xs ys : List ℕ)
    → IsString m (a + i) xs
    → IsString m (b + i) ys
    → strncmp_loop n m a b i ≡ order (take n xs) (take n ys)
unfolding strncmp_loop order
strncmp_loop-order zero a b i m xs ys h k = refl
strncmp_loop-order (suc n) a b i m [] [] h k = ground arith
strncmp_loop-order (suc n) a b i m [] (y ∷ ys) h k = ground arith
strncmp_loop-order (suc n) a b i m (x ∷ xs) [] h k = ground arith
strncmp_loop-order (suc n) a b i m (x ∷ xs) (y ∷ ys) h k =
    let e : a + i + 1 ≡ a + (i + 1) = omega arith in
    let e' : b + i + 1 ≡ b + (i + 1) = omega arith in
    let h' : IsString m (a + (i + 1)) xs = rw e at (h.2) in
    let k' : IsString m (b + (i + 1)) ys = rw e' at (k.2) in
    rw (h.0, k.0) (ground (arith, h.1, strncmp_loop-order n a b (i + 1) m xs ys h' k'))

Bytes-take : (n : ℕ) (xs : List ℕ) → Bytes xs → Bytes (take n xs)
Bytes-take zero xs h = tt
Bytes-take (suc n) [] h = tt
Bytes-take (suc n) (x ∷ xs) h = (h.0, h.1, Bytes-take n xs h.2)

-- `strncmp` answers 0 exactly when the first `n` bytes of the two texts are equal, a text that is
-- shorter counting whole.
pub strncmp-zero :
    (n a b : ℕ) (m : Memory) (xs ys : List ℕ)
    → IsString m a xs
    → IsString m b ys
    → Bytes xs
    → Bytes ys
    → (strncmp m a b n ≡ pos 0) ↔ (take n xs ≡ take n ys)
unfolding strncmp
strncmp-zero n a b m xs ys h k hx hy =
    let e : a ≡ a + 0 = omega arith in
    let e' : b ≡ b + 0 = omega arith in
    rw (strncmp_loop-order n a b 0 m xs ys (rw e at h) (rw e' at k)) (
      order-zero (take n xs) (take n ys) (Bytes-take n xs hx) (Bytes-take n ys hy),
      λ q. rw (← q) (order_self (take n xs)),
    )
