-- ===== src/Console/Numbers.antt =====
-- The digits that `print_int` and `print_uint64_as_hex` of print.c print.
use native.Mathlib.Nat.{pow-suc}
use keyhole_os.Prelude.{
  ℕ, zero, suc, ◌+◌, ◌-◌, ◌*◌, ◌/◌, ◌%◌, ◌^◌, ◌≤◌, ◌<◌, ◌≡◌, ◌≢◌, refl, ◌∙◌, ◌==◌, ltb,
  if◌then◌else◌, arith, Bool-cases, inl, inr, List, [], ◌∷◌, length, get_or, false, true, ==_iff,
  ◌⊎◌, dec_lt,
}
use keyhole_os.Byte.{checked_to, from-checked_to}
use keyhole_os.Console.{
  Screen, hex_chars, decimal, hexadecimal, print_int, print_uint64_as_hex, print_str,
}

-- the number that digits stand for in a base, behind the number `acc`
pub value : (digit : ℕ → ℕ) (base acc : ℕ) → List ℕ → ℕ
value digit base acc [] = acc
value digit base acc (d ∷ ds) = value digit base (acc * base + digit d) ds

-- what the bytes '0' to '9' and 'A' to 'F' stand for
pub digit : ℕ → ℕ
digit c = if ltb c b'A' then c - b'0' else c - b'A' + 10

abbrev pub First : (P : ℕ → Type 0) → List ℕ → Type 0
First P [] = ⊥
First P (c ∷ cs) = P c

module _ (f n : ℕ) where
  half_fuel : n < 2 ^ suc f → n / 10 < 2 ^ f
  half_fuel h = omega (arith, pow-suc 2 f)

  half_fuel16 : n < 2 ^ suc f → n / 2 ^ 4 < 2 ^ f
  half_fuel16 h = omega (arith, pow-suc 2 f)

abbrev pub All : (P : ℕ → Type 0) → List ℕ → Type 0
All P [] = Unit {0}
All P (c ∷ cs) = P c × All P cs

abbrev pub IsDecimal : ℕ → Type 0
IsDecimal c = (b'0' ≤ c) × (c ≤ b'9')

digit-decimal : (n : ℕ) → digit (b'0' + n % 10) ≡ n % 10
unfolding digit
digit-decimal n = ground arith

decimal-value :
    (f n : ℕ) (buf : List ℕ) → n < 2 ^ f → value digit 10 0 (decimal f n buf) ≡ value digit 10 n buf
unfolding decimal value
decimal-value zero n buf h = let e : n ≡ 0 = omega arith in rw e refl
decimal-value (suc f) n buf h = elim (Bool-cases (n == 0)) [
  | inl z ↦ let e : n ≡ 0 = ground arith in rw e refl
  | inr nz ↦
      let e : n / 10 * 10 + n % 10 ≡ n = omega arith in
      let d = digit-decimal n in
      rw nz (decimal-value f (n / 10) ((b'0' + n % 10) ∷ buf) (half_fuel f n h) ∙ rw (d, e) refl)
]

decimal-length : (f n k : ℕ) (buf : List ℕ) → n < 10 ^ k → length (decimal f n buf) ≤ k + length buf
unfolding decimal
decimal-length zero n k buf h = omega arith
decimal-length (suc f) n zero buf h = let e : n ≡ 0 = omega arith in rw e (omega arith)
decimal-length (suc f) n (suc k) buf h = ground (
  arith,
  pow-suc 10 k,
  decimal-length f (n / 10) k ((b'0' + n % 10) ∷ buf) (omega (arith, pow-suc 10 k)),
)

decimal-All : (f n : ℕ) (buf : List ℕ) → All IsDecimal buf → All IsDecimal (decimal f n buf)
unfolding decimal
decimal-All zero n buf h = h
decimal-All (suc f) n buf h = elim (Bool-cases (n == 0)) [
  | inl z ↦ rw z h
  | inr nz ↦ rw nz (decimal-All f (n / 10) ((b'0' + n % 10) ∷ buf) ((omega arith, omega arith), h))
]

decimal-First :
    (f n : ℕ) (buf : List ℕ)
    → n < 2 ^ f
    → (0 < n) ⊎ First (λ c. c ≢ b'0') buf
    → First (λ c. c ≢ b'0') (decimal f n buf)
unfolding decimal
decimal-First zero n buf h (inl p) = absurd (omega arith)
decimal-First zero n buf h (inr p) = p
decimal-First (suc f) n buf h (inl p) =
    let nz : (n == 0) ≡ false = ground arith in
    rw nz (
      decimal-First f (n / 10) ((b'0' + n % 10) ∷ buf) (half_fuel f n h)
        (elim (dec_lt 0 (n / 10)) [ yes q ↦ inl q | no q ↦ inr (omega arith) ]))
decimal-First (suc f) n buf h (inr p) = elim (Bool-cases (n == 0)) [
  | inl z ↦ rw z p
  | inr nz ↦ rw nz (
      decimal-First f (n / 10) ((b'0' + n % 10) ∷ buf) (half_fuel f n h)
        (elim (dec_lt 0 (n / 10)) [ yes q ↦ inl q | no q ↦ inr (ground arith) ]))
]

-- For a number from 1 up to 2 ^ 64 - 1 `print_int` prints a text as `print_str` does: decimal digits
-- that stand for the number, the first of them not 0, and no more than fit its 20 bytes.
pub print_int_lem :
    (n : ℕ) (s : Screen)
    → 0 < n
    → n < 2 ^ 64
    → (ds : List ℕ) × (print_int n s ≡ print_str ds s)
      × (value digit 10 0 ds ≡ n)
      × All IsDecimal ds
      × First (λ c. c ≢ b'0') ds
      × (length ds ≤ 20)
unfolding print_int print_str value
print_int_lem n s pos h =
    let nz : (n == 0) ≡ false = ground arith in
    (
      decimal 64 n [],
      rw nz refl,
      decimal-value 64 n [] h,
      decimal-All 64 n [] tt,
      decimal-First 64 n [] h (inl pos),
      decimal-length 64 n 20 [] (omega arith),
    )

hex_table : checked_to (λ d. digit (get_or hex_chars d 0) == d) 16 ≡ true
unfolding checked_to digit
hex_table = refl

digit-hex : (n : ℕ) → digit (get_or hex_chars (n % 2 ^ 4) 0) ≡ n % 2 ^ 4
digit-hex n = (==_iff _ _).0 (
    from-checked_to (λ d. digit (get_or hex_chars d 0) == d) 16 {k = n % 2 ^ 4} (omega arith)
      hex_table)

hexadecimal-value :
    (f n : ℕ) (buf : List ℕ)
    → n < 2 ^ f
    → value digit 16 0 (hexadecimal f n buf) ≡ value digit 16 n buf
unfolding hexadecimal value
hexadecimal-value zero n buf h = let e : n ≡ 0 = omega arith in rw e refl
hexadecimal-value (suc f) n buf h = elim (Bool-cases (n == 0)) [
  | inl z ↦ let e : n ≡ 0 = ground arith in rw e refl
  | inr nz ↦
      let e : n / 2 ^ 4 * 16 + n % 2 ^ 4 ≡ n = omega arith in
      let d = digit-hex n in
      rw nz (
        hexadecimal-value f (n / 2 ^ 4) (get_or hex_chars (n % 2 ^ 4) 0 ∷ buf) (half_fuel16 f n h)
        ∙ rw (d, e) refl)
]

hexadecimal-length :
    (f n k : ℕ) (buf : List ℕ) → n < 16 ^ k → length (hexadecimal f n buf) ≤ k + length buf
unfolding hexadecimal
hexadecimal-length zero n k buf h = omega arith
hexadecimal-length (suc f) n zero buf h = let e : n ≡ 0 = omega arith in rw e (omega arith)
hexadecimal-length (suc f) n (suc k) buf h = ground (
  arith,
  pow-suc 16 k,
  hexadecimal-length f (n / 2 ^ 4) k (get_or hex_chars (n % 2 ^ 4) 0 ∷ buf)
      (omega (arith, pow-suc 16 k)),
)

-- For a number from 1 up to 2 ^ 64 - 1 `print_uint64_as_hex` prints hexadecimal digits that stand for
-- the number, and no more than the 16 that its buffer holds before the zero.
pub print_uint64_as_hex_lem :
    (n : ℕ) (s : Screen)
    → 0 < n
    → n < 2 ^ 64
    → (ds : List ℕ) × (print_uint64_as_hex n s ≡ print_str ds s)
      × (value digit 16 0 ds ≡ n)
      × (length ds ≤ 16)
unfolding print_uint64_as_hex value
print_uint64_as_hex_lem n s pos h =
    let nz : (n == 0) ≡ false = ground arith in
    (
      hexadecimal 64 n [],
      rw nz refl,
      hexadecimal-value 64 n [] h,
      hexadecimal-length 64 n 16 [] (omega arith),
    )
