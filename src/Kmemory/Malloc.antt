-- ===== src/Kmemory/Malloc.antt =====
-- `kmalloc` and `heap_init` of kmemory.c, whole.
use keyhole_os.Prelude.{
  ℕ, ◌+◌, ◌-◌, ◌^◌, ◌≤◌, ◌<◌, ◌≡◌, refl, true, false, none, arith, List, [], ◌∷◌, length, ◌⊎◌,
}
use keyhole_os.Pmm.{page_size}
use keyhole_os.Kmemory.{
  header, heap_start, heap_max, Heap, PageSource, extend, heap_init, pages_needed,
}
use keyhole_os.Kmemory.Cells.{Cell, Chain, Layout, first_fit}
use keyhole_os.Kmemory.Keep.{owned}

-- The chain of `h` holds the blocks `cs`, one at least, in order and apart, below the heap's end.
pub record IsHeap {S : Type 0} (h : Heap S) (cs : List Cell) : Type 0 where
  pub chain : Chain h.blocks h.free_list cs
  pub layout : Layout heap_start h.heap_end cs
  pub small : h.heap_end ≤ 2 ^ 62
  pub some_block : 0 < length cs

-- what a call that returns an address has done
pub record Grant {S : Type 0} (size : ℕ) (cs : List Cell) (r : ℕ × Heap S) : Type 0 where
  pub block : ℕ
  pub cells : List Cell
  pub address : r.0 ≡ block + header
  pub heap : IsHeap r.1 cells
  pub room : ℕ
  pub enough : size ≤ room
  pub granted : owned block room cells ≡ true
  pub not_used : (n : ℕ) → owned block n cs ≡ false
  pub kept : (a n : ℕ) → owned a n cs ≡ true → owned a n cells ≡ true

-- What `kmalloc` may answer. NULL says that no block fits and that the heap is at its limit or the
-- pages ran out; the blocks are then as they were.
pub data Malloc (src : PageSource) (size : ℕ) (h : Heap src.State) (cs : List Cell)
    : ℕ × Heap src.State → Type 0 where
  null :
      {h' : Heap src.State}
      → IsHeap h' cs
      → first_fit size cs ≡ none
      → (heap_max ≤ h.heap_end) ⊎ ((extend src (pages_needed size) h).0 ≡ false)
      → Malloc src size h cs (0, h')
  block : {r : ℕ × Heap src.State} → Grant size cs r → Malloc src size h cs r

module _ (src : PageSource) where
  -- `heap_init` makes a heap in order: one free block on the page at `heap_start`.
  pub heap_init-IsHeap :
      (h : Heap src.State)
      → IsHeap
          (heap_init src h)
          (record { addr = heap_start; size = page_size - header; free = true } ∷ [])
  unfolding heap_init
  heap_init-IsHeap h = record {
    chain = (refl, refl, refl, refl);
    layout = (omega arith, omega arith);
    small = omega arith;
    some_block = omega arith;
  }
