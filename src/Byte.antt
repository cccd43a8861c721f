-- ===== src/Byte.antt =====
-- The bits of a byte: what `b & (1 << k)`, `b |= 1 << k` and `b &= ~(1 << k)` do to a `uint8_t`.
-- A byte has 256 values and 8 bits, so each law is one table, checked by evaluation.
use keyhole_os.Prelude.{
  ℕ, zero, suc, ◌-◌, ◌/◌, ◌%◌, ◌^◌, ◌<◌, bit_and, bit_or, ◌≡◌, refl, Bool, true, false, ◌&&◌, arith,
  ◌==◌, ==_iff, if◌then◌else◌, ltb,
}

-- bit `k` of `b`
unfoldable pub bit : ℕ → ℕ → ℕ
bit b k = b / 2 ^ k % 2

-- `b | (1 << k)`
unfoldable pub set_bit : ℕ → ℕ → ℕ
set_bit b k = bit_or b (2 ^ k)

-- `b & ~(1 << k)`, as the low byte of the `int` result
unfoldable pub clear_bit : ℕ → ℕ → ℕ
clear_bit b k = bit_and b (255 - 2 ^ k)

-- `b & (1 << k)`
unfoldable pub test_bit : ℕ → ℕ → ℕ
test_bit b k = bit_and b (2 ^ k)

-- `law` holds of the `count` numbers from 0 on
unfoldable pub checked_to : (law : ℕ → Bool) → (count : ℕ) → Bool
checked_to law zero = true
checked_to law (suc last) = let before = checked_to law last in if before then law last else false

pub from-checked_to :
    (law : ℕ → Bool) (count : ℕ) {k : ℕ} → k < count → checked_to law count ≡ true → law k ≡ true
unfolding checked_to
from-checked_to law zero less table = absurd (omega arith)
from-checked_to law (suc last) {k} less table = ground (arith, from-checked_to law last {k = k})

-- a law at every byte and pair of bits
abbrev everywhere : (ℕ → ℕ → ℕ → Bool) → Bool
everywhere p = checked_to (λ b. checked_to (λ k. checked_to (λ j. p b k j) 8) 8) 256

everywhere_sound :
    (p : ℕ → ℕ → ℕ → Bool) (b k j : ℕ)
    → everywhere p ≡ true
    → b < 256
    → k < 8
    → j < 8
    → p b k j ≡ true
everywhere_sound p b k j t hb hk hj =
    let at_byte = from-checked_to (λ b. checked_to (λ k. checked_to (λ j. p b k j) 8) 8) 256 hb t in
    let at_bit = from-checked_to (λ k. checked_to (λ j. p b k j) 8) 8 hk at_byte in
    from-checked_to (λ j. p b k j) 8 hj at_bit

set_table : everywhere (λ b k j. bit (set_bit b k) j == (if j == k then 1 else bit b j)) ≡ true
unfolding checked_to bit set_bit
set_table = refl

clear_table : everywhere (λ b k j. bit (clear_bit b k) j == (if j == k then 0 else bit b j)) ≡ true
unfolding checked_to bit clear_bit
clear_table = refl

range_table :
    everywhere (λ b k j. ltb (set_bit b k) 256 && ltb (clear_bit b k) 256 && ltb (bit b k) 2) ≡ true
unfolding checked_to bit set_bit clear_bit
range_table = refl

test_table : everywhere (λ b k j. (if test_bit b k == 0 then 0 else 1) == bit b k) ≡ true
unfolding checked_to bit test_bit
test_table = refl

-- setting a bit that is clear, then clearing it, gives the byte back
undo_table :
    everywhere (λ b k j. if bit b k == 0 then clear_bit (set_bit b k) k == b else true) ≡ true
unfolding checked_to bit set_bit clear_bit
undo_table = refl

full_table : everywhere (λ b k j. if b == 255 then bit b k == 1 else true) ≡ true
unfolding checked_to bit
full_table = refl

module _ (b k j : ℕ) (hb : b < 256) (hk : k < 8) (hj : j < 8) where
  pub bit-set_bit : bit (set_bit b k) j ≡ (if j == k then 1 else bit b j)
  bit-set_bit = (==_iff _ _).0 (everywhere_sound _ b k j set_table hb hk hj)

  pub bit-clear_bit : bit (clear_bit b k) j ≡ (if j == k then 0 else bit b j)
  bit-clear_bit = (==_iff _ _).0 (everywhere_sound _ b k j clear_table hb hk hj)

module _ (b k : ℕ) (hb : b < 256) (hk : k < 8) where
  pub range : (set_bit b k < 256) × (clear_bit b k < 256) × (bit b k < 2)
  range = ground (
    arith,
    everywhere_sound (λ b k j. ltb (set_bit b k) 256 && ltb (clear_bit b k) 256 && ltb (bit b k) 2)
        b k k range_table hb hk hk,
  )

  pub test_bit-bit : (if test_bit b k == 0 then 0 else 1) ≡ bit b k
  test_bit-bit = (==_iff _ _).0 (everywhere_sound _ b k k test_table hb hk hk)

  pub clear_bit-set_bit : bit b k ≡ 0 → clear_bit (set_bit b k) k ≡ b
  clear_bit-set_bit h = ground (
    arith,
    everywhere_sound (λ b k j. if bit b k == 0 then clear_bit (set_bit b k) k == b else true) b k k
        undo_table hb hk hk,
  )

pub bit_full : (k : ℕ) → k < 8 → bit 255 k ≡ 1
bit_full k hk = ground (
  arith,
  everywhere_sound (λ b k j. if b == 255 then bit b k == 1 else true) 255 k k full_table
      (omega arith) hk hk,
)
