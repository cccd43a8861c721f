-- ===== src/Boot/Tests.antt =====
-- The memory of the user program, at an empty top table and 126 free pages.
use keyhole_os.Prelude.{ℕ, zero, suc, Bool, true, ◌&&◌, not, ◌==◌, if◌then◌else◌}
use keyhole_os.Pmm.{Pmm, alloc}
use keyhole_os.Vmm.{Vmm}
use keyhole_os.Vmm.Blank.{blank}

abbrev pages : Pmm
pages = record {
  bitmap = λ i. if i == 0 then 3 else if i == 0x60 then 1 else 0;
  total_pages = 128;
  used_pages = 3;
}

abbrev has_pages : ℕ → Pmm → Bool
has_pages zero p = true
has_pages (suc k) p = let (a, p') = alloc p in not (a == 0) && has_pages k p'

abbrev fresh : Vmm
fresh = blank 0x1000 pages
