-- ===== src/Vmm.antt =====
-- src/impl/x86_64/vmm.c, src/intf/vmm.h: the four levels of page tables, over the page allocator.
-- A table is a page: memory gives word `i` of the page at an address. The tables are read at their
-- physical addresses, as the code does, which runs with low memory mapped to itself.
-- The bitmap of the page allocator is memory, too: a table that is made on its page clears it. The writes of
-- single entries are to tables, which Vmm.Descent keeps off the bitmap.
-- `flushed` are the addresses that `invlpg` was called with, the last one first.
pub mod Descent
pub mod Table
pub mod Level
pub mod Entry
pub mod Map
pub mod Blank
mod Tests
use keyhole_os.Prelude.{
  ℕ, zero, suc, ◌+◌, ◌*◌, ◌/◌, ◌%◌, ◌^◌, Bool, true, false, ◌&&◌, not, ◌==◌, ltb, leb,
  if◌then◌else◌, bit_or, List, ◌∷◌,
}
use keyhole_os.Pmm.{Pmm, alloc}

abbrev pub Tables : Type 0
Tables = ℕ → ℕ → ℕ

pub record Vmm : Type 0 where
  pub tables : Tables
  pub pml4 : ℕ
  pub pmm : Pmm
  pub flushed : List ℕ

-- where pmm.c keeps its bitmap
abbrev pub bitmap_start : ℕ
bitmap_start = 0x300000

abbrev pub vmm_present : ℕ
vmm_present = 1

abbrev pub vmm_writable : ℕ
vmm_writable = 2

abbrev pub vmm_user : ℕ
vmm_user = 4

-- `e & VMM_PRESENT` and `e & VMM_USER` as tests
abbrev pub is_present : ℕ → Bool
is_present e = not (e % 2 == 0)

abbrev pub is_user : ℕ → Bool
is_user e = not (e / 4 % 2 == 0)

-- `e & 0x000FFFFFFFFFF000`
abbrev pub address : ℕ → ℕ
address e = e % 2 ^ 52 / 2 ^ 12 * 2 ^ 12

-- `l4_idx` to `l1_idx`
abbrev pub l4_index : ℕ → ℕ
l4_index virt = virt / 2 ^ 39 % 2 ^ 9

abbrev pub l3_index : ℕ → ℕ
l3_index virt = virt / 2 ^ 30 % 2 ^ 9

abbrev pub l2_index : ℕ → ℕ
l2_index virt = virt / 2 ^ 21 % 2 ^ 9

abbrev pub l1_index : ℕ → ℕ
l1_index virt = virt / 2 ^ 12 % 2 ^ 9

-- `table[i] = e`
abbrev pub set_entry : (table i e : ℕ) → Tables → Tables
set_entry table i e m t j = if t == table && j == i then e else m t j

-- the 512 words of a page at 0
abbrev pub clear_table : (table : ℕ) → Tables → Tables
clear_table table m t j = if t == table && ltb j 512 then 0 else m t j

abbrev pub on_page : (page a : ℕ) → Bool
on_page page a = leb page a && ltb a (page + 4096)

-- the bytes of the bitmap that lie on that page
abbrev pub clear_bitmap : (table : ℕ) → Pmm → Pmm
clear_bitmap table p = record p {
  bitmap =
      λ j. if ltb j (p.total_pages / 8) && on_page table (bitmap_start + j) then 0 else p.bitmap j;
}

-- The entry for a new table. No page left is not tested for: the table is at address 0 then.
unfoldable pub make_table : Vmm → ℕ × Vmm
make_table s =
    let (new_table, p) = alloc s.pmm in
    (
      bit_or (bit_or new_table vmm_present) vmm_writable,
      record s { tables = clear_table new_table s.tables; pmm = clear_bitmap new_table p },
    )

-- `if (!(table[i] & VMM_PRESENT)) table[i] = make_table();`
unfoldable pub fill_entry : (table i : ℕ) → Vmm → Vmm
unfolding make_table
fill_entry table i s =
    let (e, s') = make_table s in
    if is_present (s.tables table i)
    then s
    else record s' { tables = set_entry table i e s'.tables }

-- `if (flags & VMM_USER) table[i] |= VMM_USER;`
unfoldable pub mark_entry : (table i flags : ℕ) → Vmm → Vmm
mark_entry table i flags s =
    if is_user flags
    then record s { tables = set_entry table i (bit_or (s.tables table i) vmm_user) s.tables }
    else s

-- one level of `vmm_map`: the table of the next level
unfoldable pub next_table : (table i flags : ℕ) → Vmm → ℕ × Vmm
next_table table i flags s =
    let s' = mark_entry table i flags (fill_entry table i s) in (address (s'.tables table i), s')

-- `l1_table[l1_idx] = e; invlpg(virt);`
unfoldable pub set_page_entry : (l1_table virt e : ℕ) → Vmm → Vmm
set_page_entry l1_table virt e s = record s {
  tables = set_entry l1_table (l1_index virt) e s.tables;
  flushed = virt ∷ s.flushed;
}

-- The result of `vmm_map` is always 0, and left out.
unfoldable pub vmm_map : (virt phys flags : ℕ) → Vmm → Vmm
unfolding next_table set_page_entry
vmm_map virt phys flags s =
    let (l3_table, s3) = next_table s.pml4 (l4_index virt) flags s in
    let (l2_table, s2) = next_table l3_table (l3_index virt) flags s3 in
    let (l1_table, s1) = next_table l2_table (l2_index virt) flags s2 in
    set_page_entry l1_table virt (bit_or phys flags) s1

unfoldable pub vmm_unmap : (virt : ℕ) → Vmm → Vmm
unfolding set_page_entry
vmm_unmap virt s =
    let e4 = s.tables s.pml4 (l4_index virt) in
    let e3 = s.tables (address e4) (l3_index virt) in
    let e2 = s.tables (address e3) (l2_index virt) in
    if not (is_present e4)
    then s
    else if not (is_present e3)
    then s
    else if not (is_present e2)
    then s
    else set_page_entry (address e2) virt 0 s

unfoldable pub vmm_get_phys : (virt : ℕ) → Vmm → ℕ
vmm_get_phys virt s =
    let e4 = s.tables s.pml4 (l4_index virt) in
    let e3 = s.tables (address e4) (l3_index virt) in
    let e2 = s.tables (address e3) (l2_index virt) in
    let e1 = s.tables (address e2) (l1_index virt) in
    if not (is_present e4)
    then 0
    else if not (is_present e3)
    then 0
    else if not (is_present e2)
    then 0
    else if not (is_present e1)
    then 0
    else bit_or (address e1) (virt % 2 ^ 12)
