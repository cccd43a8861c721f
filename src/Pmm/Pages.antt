-- ===== src/Pmm/Pages.antt =====
-- Which pages the bitmap of pmm.c marks as in use, and what one write to it changes.
use keyhole_os.Prelude.{ℕ, ◌/◌, ◌%◌, ◌^◌, ◌≤◌, ◌<◌, ◌≡◌, ◌==◌, if◌then◌else◌, arith}
use keyhole_os.Byte
use keyhole_os.Byte.{bit, set_bit, clear_bit}
use keyhole_os.Pmm.{Pmm, set_page, clear_page}

-- the bit of page `p`: 1 if it is in use
abbrev pub used : Pmm → ℕ → ℕ
used s p = bit (s.bitmap (p / 8)) (p % 8)

-- The bitmap holds bytes, and the memory is within the 64-bit address space.
pub record IsValid (s : Pmm) : Type 0 where
  pub bytes : (i : ℕ) → s.bitmap i < 256
  pub small : s.total_pages ≤ 2 ^ 52
  pub counted : s.used_pages < 2 ^ 64

pub used-lt : {s : Pmm} (p : ℕ) → IsValid s → used s p < 2
used-lt {s} p v = (Byte.range (s.bitmap (p / 8)) (p % 8) (v.bytes (p / 8)) (omega arith)).2

module _ {s : Pmm} (p q : ℕ) (v : IsValid s) where
  pub used-set_page : used (set_page p s) q ≡ (if q == p then 1 else used s q)
  unfolding set_page
  used-set_page =
      ground (arith, Byte.bit-set_bit (s.bitmap (p / 8)) (p % 8) (q % 8) (v.bytes (p / 8)))

  pub used-clear_page : used (clear_page p s) q ≡ (if q == p then 0 else used s q)
  unfolding clear_page
  used-clear_page =
      ground (arith, Byte.bit-clear_bit (s.bitmap (p / 8)) (p % 8) (q % 8) (v.bytes (p / 8)))

module _ {s : Pmm} (p : ℕ) (v : IsValid s) where
  bytes-set_page : (i : ℕ) → (set_page p s).bitmap i < 256
  unfolding set_page
  bytes-set_page i =
      ground (arith, v.bytes i, Byte.range (s.bitmap (p / 8)) (p % 8) (v.bytes (p / 8)))

  bytes-clear_page : (i : ℕ) → (clear_page p s).bitmap i < 256
  unfolding clear_page
  bytes-clear_page i =
      ground (arith, v.bytes i, Byte.range (s.bitmap (p / 8)) (p % 8) (v.bytes (p / 8)))

  pub set_page-IsValid : IsValid (set_page p s)
  unfolding set_page
  set_page-IsValid = record { bytes = bytes-set_page; small = v.small; counted = omega arith }

  pub clear_page-IsValid : IsValid (clear_page p s)
  unfolding clear_page
  clear_page-IsValid = record { bytes = bytes-clear_page; small = v.small; counted = omega arith }
