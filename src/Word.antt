-- ===== src/Word.antt =====
-- Words of 64 bits: what `|` does to fields that do not overlap.
use Prim.Native.Nat.{max, digits, bit_or-bitwise}
use keyhole_os.Prelude.{ℕ, zero, suc, ◌+◌, ◌*◌, ◌/◌, ◌%◌, ◌≤◌, ◌<◌, ◌≡◌, refl, bit_or, arith}

-- what the native `|` computes by: it falls along the first operand
or_rounds-any :
    (n m a b : ℕ) → a ≤ n → a ≤ m → digits (λ r. r) max n a b ≡ digits (λ r. r) max m a b
or_rounds-any zero zero zero b h k = refl
or_rounds-any zero (suc m) zero b h k = refl
or_rounds-any (suc n) zero zero b h k = refl
or_rounds-any (suc n) (suc m) zero b h k = refl
or_rounds-any (suc n) (suc m) (suc a) b h k =
    omega (arith, or_rounds-any n m (suc a / 2) (b / 2) (omega arith) (omega arith))
or_rounds-any zero m (suc a) b h k = absurd (omega arith)
or_rounds-any (suc n) zero (suc a) b h k = absurd (omega arith)

zero-bit_or : (b : ℕ) → bit_or 0 b ≡ b
zero-bit_or b = bit_or-bitwise 0 b

-- the lowest bit of `a | b`, and the others
pub bit_or_last : (a b : ℕ) → bit_or a b ≡ bit_or (a / 2) (b / 2) * 2 + max (a % 2) (b % 2)
bit_or_last zero b = omega (arith, zero-bit_or b, zero-bit_or (b / 2))
bit_or_last (suc a) b = omega (
  arith,
  bit_or-bitwise (suc a) b,
  bit_or-bitwise (suc a / 2) (b / 2),
  or_rounds-any a (suc a / 2) (suc a / 2) (b / 2) (omega arith) (omega arith),
)

-- `n` shifted by `k` bits, to the left and to the right
abbrev pub shl : ℕ → ℕ → ℕ
shl zero n = n
shl (suc k) n = 2 * shl k n

abbrev pub shr : ℕ → ℕ → ℕ
shr zero n = n
shr (suc k) n = shr k (n / 2)

bit_or-zero_to : (n a : ℕ) → a ≤ n → bit_or a 0 ≡ a
bit_or-zero_to n zero h = zero-bit_or 0
bit_or-zero_to zero (suc a) h = absurd (omega arith)
bit_or-zero_to (suc n) (suc a) h =
    omega (arith, bit_or_last (suc a) 0, bit_or-zero_to n (suc a / 2) (omega arith))

pub bit_or-zero : (a : ℕ) → bit_or a 0 ≡ a
bit_or-zero a = bit_or-zero_to a a (omega arith)

-- A field below the lowest bit that is set is added.
pub bit_or-shl : (k a b : ℕ) → b < shl k 1 → bit_or (shl k a) b ≡ shl k a + b
bit_or-shl zero a b h =
    let none_set : b ≡ 0 = omega arith in rw none_set (omega (arith, bit_or-zero a))
bit_or-shl (suc k) a b h =
    let half : 2 * shl k a / 2 ≡ shl k a = omega arith in
    let last = bit_or_last (2 * shl k a) b in
    let rest = bit_or-shl k a (b / 2) (omega arith) in omega (arith, rw half at last, rest)

-- The field below may stand on the left.
pub bit_or-shl_above : (k a b : ℕ) → b < shl k 1 → bit_or b (shl k a) ≡ shl k a + b
bit_or-shl_above zero a b h =
    let none_set : b ≡ 0 = omega arith in rw none_set (omega (arith, zero-bit_or a))
bit_or-shl_above (suc k) a b h =
    let half : 2 * shl k a / 2 ≡ shl k a = omega arith in
    let last = bit_or_last b (2 * shl k a) in
    let rest = bit_or-shl_above k a (b / 2) (omega arith) in omega (arith, rw half at last, rest)

pub half-bit_or : (a b : ℕ) → bit_or a b / 2 ≡ bit_or (a / 2) (b / 2)
half-bit_or a b = omega (arith, bit_or_last a b)

pub shr-bit_or : (k a b : ℕ) → shr k (bit_or a b) ≡ bit_or (shr k a) (shr k b)
shr-bit_or zero a b = refl
shr-bit_or (suc k) a b = rw (half-bit_or a b) (shr-bit_or k (a / 2) (b / 2))

-- Twelve bits, the offset in a page.
pub page-bit_or : (a b : ℕ) → a % 4096 ≡ 0 → b < 4096 → bit_or a b ≡ a + b
page-bit_or a b h lt =
    let e : a ≡ shl 12 (a / 4096) = omega arith in rw e (bit_or-shl 12 (a / 4096) b lt)

pub bit_or-page : (a b : ℕ) → b < 4096 → bit_or a b / 4096 ≡ a / 4096
bit_or-page a b lt =
    let none_left : shr 12 b ≡ 0 = omega arith in
    let parts = shr-bit_or 12 a b in
    let above = rw none_left at parts in omega (arith, above, bit_or-zero (shr 12 a))
