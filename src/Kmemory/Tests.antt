-- ===== src/Kmemory/Tests.antt =====
-- The theorems about the kernel heap at a small heap.
use keyhole_os.Prelude.{
  ℕ, ◌+◌, ◌≡◌, ◌≢◌, refl, true, false, arith, ◌==◌, if◌then◌else◌, List, [], ◌∷◌,
}
use keyhole_os.Kmemory.{Blocks, Heap, PageSource, heap_init, kfree}
use keyhole_os.Kmemory.Cells.{Cell, release}
use keyhole_os.Kmemory.Keep.{owned, bytes}
use keyhole_os.Kmemory.Malloc.{IsHeap, Malloc, heap_init-IsHeap}
use keyhole_os.Kmemory.Release.{starts}
use keyhole_os.Kmemory.Free.{kfree-IsHeap}

-- pages from a counter, mapped nowhere
abbrev pages : PageSource
pages = record { State = ℕ; alloc = λ n. (n, n + 0x1000); map = λ virt phys s. s }

-- a block in use of 72 bytes, and a free one behind it
abbrev blocks : Blocks
blocks a =
    if a == 0x1000000
    then record { size = 72; free = false; next = 0x1000060 }
    else record { size = 3976; free = true; next = 0 }

abbrev heap : Heap ℕ
heap = record { blocks = blocks; free_list = 0x1000000; heap_end = 0x1001000; pages = 0x400000 }

abbrev cells : List Cell
cells =
    record { addr = 0x1000000; size = 72; free = false }
    ∷ record { addr = 0x1000060; size = 3976; free = true }
    ∷ []

heap-IsHeap : IsHeap heap cells
heap-IsHeap = record {
  chain = (refl, refl, refl, (refl, refl, refl, refl));
  layout = omega arith;
  small = omega arith;
  some_block = omega arith;
}

kfree-IsHeap_example :
    IsHeap (record heap { blocks = kfree 0x1000018 blocks }) (release 0x1000000 cells)
    × ((n : ℕ) → owned 0x1000000 n (release 0x1000000 cells) ≡ false)
    × ((a n : ℕ) → a ≢ 0x1000000 → owned a n (release 0x1000000 cells) ≡ owned a n cells)
    × (bytes (release 0x1000000 cells) ≡ bytes cells)
unfolding starts
kfree-IsHeap_example = kfree-IsHeap 0x1000000 heap cells heap-IsHeap refl

heap_init-IsHeap_example :
    IsHeap (heap_init pages heap) (record { addr = 0x1000000; size = 4072; free = true } ∷ [])
heap_init-IsHeap_example = heap_init-IsHeap pages heap
