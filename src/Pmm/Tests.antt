-- ===== src/Pmm/Tests.antt =====
-- The theorems about the page allocator at a small memory.
use keyhole_os.Prelude.{◌*◌, ◌≡◌, refl, arith, if◌then◌else◌, ◌==◌, [], ◌∷◌}
use keyhole_os.Memory.{Memory}
use keyhole_os.Byte.{test_bit}
use keyhole_os.Pmm.{Pmm, alloc, free, reserve_region}
use keyhole_os.Pmm.Pages.{used, IsValid}
use keyhole_os.Pmm.Alloc.{Search, alloc-Search, Same, free-alloc}
use keyhole_os.Pmm.Regions.{reserve_region-touches}
use keyhole_os.Pmm.Setup.{Entry, entry_at, next_tag, read32}
use keyhole_os.Pmm.Setup.Walk.{Tags, stop, mmap, nil, cons}

-- 16 pages, of which page 9 is free
abbrev sixteen : Pmm
sixteen = record { bitmap = λ i. if i == 1 then 0xfd else 0xff; total_pages = 16; used_pages = 15 }

sixteen-IsValid : IsValid sixteen
sixteen-IsValid = record { bytes = λ i. ground arith; small = omega arith; counted = omega arith }

alloc_test : (alloc sixteen).0 ≡ 9 * 4096
unfolding alloc test_bit
alloc_test = refl

alloc-Search_example : Search sixteen 0 16 (alloc sixteen)
alloc-Search_example = alloc-Search sixteen-IsValid

free-alloc_example : Same sixteen (free (alloc sixteen).0 (alloc sixteen).1)
free-alloc_example = free-alloc sixteen-IsValid (rw alloc_test (omega arith))

reserve_region-touches_example :
    (used (reserve_region 0x9000 0x1 sixteen) 9 ≡ 1) × IsValid (reserve_region 0x9000 0x1 sixteen)
reserve_region-touches_example =
    reserve_region-touches 0x9000 0x1 9 refl (omega arith) sixteen-IsValid

-- At address 8 a memory map with one available region of 8 MiB from address 0, and then the end.
abbrev boot : Memory
boot a =
    if a == 8
    then 6
    else if a == 12
    then 40
    else if a == 16
    then 24
    else if a == 34
    then 0x80
    else if a == 40
    then 1
    else 0

abbrev region : Entry
region = record { addr = 0; len = 0x800000; kind = 1 }

region-Tags : Tags boot 8 (region ∷ [])
unfolding read32 entry_at next_tag
region-Tags =
    mmap (omega arith) refl (cons (omega arith) (omega arith) refl (nil (omega arith)))
      (stop (omega arith) refl) refl
