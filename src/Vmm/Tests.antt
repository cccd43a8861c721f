-- ===== src/Vmm/Tests.antt =====
-- The theorems about the page tables at an empty top table, with pages from 0x2000 on.
use keyhole_os.Prelude.{ℕ, ◌+◌, ◌%◌, ◌≡◌, ◌≢◌, refl, ◌==◌, if◌then◌else◌, arith}
use keyhole_os.Byte.{bit, test_bit, set_bit}
use keyhole_os.Pmm.{Pmm, alloc}
use keyhole_os.Pmm.Pages.{used}
use keyhole_os.Vmm.{Vmm, vmm_map, vmm_unmap, vmm_get_phys, mark_entry, fill_entry}
use keyhole_os.Vmm.Descent.{IsTree, IsBitmap}
use keyhole_os.Vmm.Level.{HasPages}
use keyhole_os.Vmm.Entry.{page_of}
use keyhole_os.Vmm.Blank.{blank, blank-IsTree}
use keyhole_os.Vmm.Map.{vmm_map_lem, vmm_unmap_lem}

abbrev pages : Pmm
pages = record {
  bitmap = λ i. if i == 0 then 3 else if i == 0x60 then 1 else 0;
  total_pages = 16;
  used_pages = 3;
}

-- the top table, on page 1, with no entry
abbrev fresh : Vmm
fresh = blank 0x1000 pages

page_used : used pages 1 ≡ 1
unfolding bit
page_used = refl

bitmap_page : used pages 0x300 ≡ 1
unfolding bit
bitmap_page = refl

bitmap_used : (q : ℕ) → IsBitmap pages q → used pages q ≡ 1
bitmap_used q b = let at : q ≡ 0x300 = omega (arith, b) in rw at bitmap_page

fresh-IsTree : IsTree fresh
fresh-IsTree =
    blank-IsTree 0x1000 pages page_used refl bitmap_used (λ b. omega (arith, b))
      (record { bytes = λ i. ground arith; small = omega arith; counted = omega arith })
      (omega arith)

first_page : (alloc pages).0 ≡ 0x2000
unfolding alloc test_bit set_bit
first_page = refl

second_page : (alloc (alloc pages).1).0 ≡ 0x3000
unfolding alloc test_bit set_bit
second_page = refl

third_page : (alloc (alloc (alloc pages).1).1).0 ≡ 0x4000
unfolding alloc test_bit set_bit
third_page = refl

fresh-HasPages : HasPages 3 pages
fresh-HasPages = (
  λ e. absurd (omega (arith, e, first_page)),
  (λ e. absurd (omega (arith, e, second_page)), (λ e. absurd (omega (arith, e, third_page)), tt)),
)

vmm_map_lem_example :
    let s' = vmm_map 0x400000 0x7000 3 fresh in
    IsTree s'
    × ((w : ℕ) → page_of w ≡ page_of 0x400000 → vmm_get_phys w s' ≡ 0x7000 + w % 4096)
    × ((w : ℕ) → page_of w ≢ page_of 0x400000 → vmm_get_phys w s' ≡ vmm_get_phys w fresh)
vmm_map_lem_example =
    vmm_map_lem 0x400000 3 fresh fresh-IsTree fresh-HasPages 0x7000 refl (omega arith) (omega arith)
      refl

vmm_unmap_lem_example :
    let s' = vmm_unmap 0x400000 fresh in
    IsTree s'
    × ((w : ℕ) → page_of w ≡ page_of 0x400000 → vmm_get_phys w s' ≡ 0)
    × ((w : ℕ) → page_of w ≢ page_of 0x400000 → vmm_get_phys w s' ≡ vmm_get_phys w fresh)
vmm_unmap_lem_example = vmm_unmap_lem 0x400000 fresh fresh-IsTree

mapped : vmm_get_phys 0x400123 (vmm_map 0x400000 0x7000 7 fresh) ≡ 0x7123
unfolding vmm_get_phys vmm_map alloc mark_entry fill_entry test_bit set_bit
mapped = refl
