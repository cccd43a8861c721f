-- ===== src/Pmm.antt =====
-- src/impl/x86_64/pmm.c, src/intf/pmm.h: the allocator of physical pages, a bitmap with a bit for
-- each page (1 is in use) behind address 0x300000 and two counters.
-- The bitmap is a function from an index to a byte, since the code writes it at any index.
pub mod Pages
pub mod Alloc
pub mod Regions
pub mod Setup
mod Tests
use keyhole_os.Prelude.{
  ℕ, zero, suc, ◌+◌, ◌-◌, ◌*◌, ◌/◌, ◌%◌, ◌^◌, Option, none, some, ◌==◌, if◌then◌else◌,
}
use keyhole_os.Byte.{set_bit, clear_bit, test_bit}

abbrev pub page_size : ℕ
page_size = 4096

pub record Pmm : Type 0 where
  pub bitmap : ℕ → ℕ
  pub total_pages : ℕ
  pub used_pages : ℕ

-- `bitmap[i] = b`
abbrev pub write : (ℕ → ℕ) → ℕ → ℕ → ℕ → ℕ
write m i b j = if j == i then b else m j

-- `used_pages++` and `used_pages--` on a `uint64_t`
abbrev pub incr : ℕ → ℕ
incr n = (n + 1) % 2 ^ 64

abbrev pub decr : ℕ → ℕ
decr n = (n + 2 ^ 64 - 1) % 2 ^ 64

-- the loop of `pmm_init`, with the rounds left
fill : ℕ → ℕ → (ℕ → ℕ) → ℕ → ℕ
fill zero i m = m
fill (suc n) i m = fill n (i + 1) (write m i 255)

-- What memory holds behind 0x300000 before the call comes with `s`.
unfoldable pub init : ℕ → Pmm → Pmm
unfolding fill
init mem_size s =
    let total = mem_size / page_size in
    record { bitmap = fill (total / 8) 0 s.bitmap; total_pages = total; used_pages = total }

-- the bodies of the two region loops
unfoldable pub clear_page : ℕ → Pmm → Pmm
clear_page page s = record s {
  bitmap = write s.bitmap (page / 8) (clear_bit (s.bitmap (page / 8)) (page % 8));
  used_pages = decr s.used_pages;
}

unfoldable pub set_page : ℕ → Pmm → Pmm
set_page page s = record s {
  bitmap = write s.bitmap (page / 8) (set_bit (s.bitmap (page / 8)) (page % 8));
  used_pages = incr s.used_pages;
}

free_pages : ℕ → ℕ → Pmm → Pmm
free_pages zero page s = s
free_pages (suc n) page s = free_pages n (page + 1) (clear_page page s)

reserve_pages : ℕ → ℕ → Pmm → Pmm
reserve_pages zero page s = s
reserve_pages (suc n) page s = reserve_pages n (page + 1) (set_page page s)

unfoldable pub free_region : ℕ → ℕ → Pmm → Pmm
unfolding free_pages
free_region addr len s = free_pages (len / page_size) (addr / page_size) s

-- `len + PAGE_SIZE - 1` is computed in 64 bits.
unfoldable pub reserve_region : ℕ → ℕ → Pmm → Pmm
unfolding reserve_pages
reserve_region addr len s =
    reserve_pages ((len + page_size - 1) % 2 ^ 64 / page_size) (addr / page_size) s

-- the inner loop of `pmm_alloc`: the first clear bit of `b` from bit `j` on, with the rounds left
clear_bit_from : ℕ → ℕ → ℕ → Option ℕ
clear_bit_from zero j b = none
clear_bit_from (suc n) j b =
    let rest = clear_bit_from n (j + 1) b in if test_bit b j == 0 then some j else rest

-- what the body of both loops does at the first clear bit, bit `j` of byte `i`
take_page : ℕ → ℕ → Pmm → ℕ × Pmm
take_page i j s = (
  (i * 8 + j) % 2 ^ 64 * page_size % 2 ^ 64,
  record s { bitmap = write s.bitmap i (set_bit (s.bitmap i) j); used_pages = incr s.used_pages },
)

-- The outer loop, with the rounds left. 0 is NULL.
alloc_from : ℕ → ℕ → Pmm → ℕ × Pmm
alloc_from zero i s = (0, s)
alloc_from (suc n) i s =
    let rest = alloc_from n (i + 1) s in
    if s.bitmap i == 255
    then rest
    else elim (clear_bit_from 8 0 (s.bitmap i)) [ some j ↦ take_page i j s | none ↦ rest ]

unfoldable pub alloc : Pmm → ℕ × Pmm
unfolding alloc_from clear_bit_from take_page
alloc s = alloc_from (s.total_pages / 8) 0 s

unfoldable pub free : ℕ → Pmm → Pmm
unfolding clear_page
free addr s = clear_page (addr / page_size) s
