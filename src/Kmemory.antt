-- ===== src/Kmemory.antt =====
-- src/impl/x86_64/kmemory.c: the kernel heap, a chain of blocks in address order. `kmalloc` takes the
-- first free block that fits and splits it, or maps new pages behind the heap and tries again;
-- `kfree` joins a block to the free one behind it.
-- The block headers are a function from their addresses. A loop takes fuel; `none` means that the
-- fuel ran out or that NULL was followed.
pub mod Cells
pub mod Place
pub mod Release
pub mod Keep
pub mod Grow
pub mod Malloc
pub mod Free
mod Tests
use keyhole_os.Prelude.{
  ℕ, zero, suc, ◌+◌, ◌-◌, ◌*◌, ◌/◌, ◌%◌, ◌^◌, Bool, true, false, ◌&&◌, Option, none, some, ◌==◌,
  leb, ltb, if◌then◌else◌, not,
}
use keyhole_os.Pmm.{page_size}

-- `struct Block`; the code gives `free` only the values 0 and 1
pub record Block : Type 0 where
  pub size : ℕ
  pub free : Bool
  pub next : ℕ

-- `sizeof(struct Block)`
abbrev pub header : ℕ
header = 24

abbrev pub heap_start : ℕ
heap_start = 0x1000000

abbrev pub heap_max : ℕ
heap_max = 0x10000000

abbrev pub Blocks : Type 0
Blocks = ℕ → Block

abbrev pub store : Blocks → ℕ → Block → Blocks
store b p v q = if q == p then v else b q

-- What the heap needs of the pages below it: `pmm_alloc`, 0 when there is none, and `vmm_map` of a
-- page at an address.
pub record PageSource : Type 1 where
  pub State : Type 0
  pub alloc : State → ℕ × State
  pub map : (virt phys : ℕ) → State → State

pub record Heap (State : Type 0) : Type 0 where
  pub blocks : Blocks
  pub free_list : ℕ
  pub heap_end : ℕ
  pub pages : State

-- the first `while` of `kmalloc`: the first free block of at least `size` bytes, if there is one
unfoldable pub search : ℕ → Blocks → (size curr : ℕ) → Option (Option ℕ)
search zero b size curr = none
search (suc f) b size curr =
    let rest = search f b size (b curr).next in
    if curr == 0
    then some none
    else if (b curr).free && leb size (b curr).size
    then some (some curr)
    else rest

-- what `kmalloc` does with the block that it takes
unfoldable pub place : Blocks → (size curr : ℕ) → Blocks
place b size curr =
    let new_block = curr + header + size in
    if ltb ((size + header + 16) % 2 ^ 64) (b curr).size
    then (let cut = store b new_block (record {
      size = ((b curr).size + 2 ^ 65 - size - header) % 2 ^ 64;
      free = true;
      next = (b curr).next;
    }) in
        store cut curr (record { size = size; free = false; next = new_block }))
    else store b curr (record { size = (b curr).size; free = false; next = (b curr).next })

-- `while (last->next) last = last->next;`
unfoldable pub last_block : ℕ → Blocks → ℕ → Option ℕ
last_block zero b last = none
last_block (suc f) b last =
    let rest = last_block f b (b last).next in
    if last == 0 then none else if (b last).next == 0 then some last else rest

-- The new block behind the heap, and its place at the end of the chain.
unfoldable pub append_block : ℕ → Blocks → (free_list block_start pages : ℕ) → Option Blocks
unfolding last_block
append_block f b free_list block_start pages =
    let b' =
      store b block_start
        (record { size = (pages * page_size + 2 ^ 64 - header) % 2 ^ 64; free = true; next = 0 }) in
    elim (last_block f b' free_list) [
      | none ↦ none
      | some last ↦ some (
          store b' last
            (record { size = (b' last).size; free = (b' last).free; next = block_start }))
    ]

-- `kfree`
unfoldable pub kfree : ℕ → Blocks → Blocks
kfree ptr b =
    let block = ptr - header in
    let freed =
      store b block (record { size = (b block).size; free = true; next = (b block).next }) in
    let next = (b block).next in
    if not (next == 0) && (freed next).free
    then store freed block (record {
      size = ((freed block).size + (header + (freed next).size)) % 2 ^ 64;
      free = true;
      next = (freed next).next;
    })
    else freed

-- `needed` and `pages` of `kmalloc`, in 64 bits
abbrev pub pages_needed : ℕ → ℕ
pages_needed size = ((size + header) % 2 ^ 64 + page_size - 1) % 2 ^ 64 / page_size

module _ (src : PageSource) where
  -- The loop that maps `pages` pages behind the heap; `false` is its early return. What it mapped
  -- before that stays.
  unfoldable pub extend : ℕ → Heap src.State → Bool × Heap src.State
  extend zero h = (true, h)
  extend (suc n) h =
      let (phys, s) = src.alloc h.pages in
      let next =
        extend n
          (record h { heap_end = h.heap_end + page_size; pages = src.map h.heap_end phys s }) in
      if phys == 0 then (false, record h { pages = s }) else next

  -- `heap_init`
  unfoldable pub heap_init : Heap src.State → Heap src.State
  heap_init h =
      let (phys, s) = src.alloc h.pages in
      record {
        blocks =
            store h.blocks heap_start (record { size = page_size - header; free = true; next = 0 });
        free_list = heap_start;
        heap_end = heap_start + page_size;
        pages = src.map heap_start phys s;
      }

  -- `kmalloc`; `walk` is the fuel of the loops over the chain. The address 0 is NULL.
  unfoldable pub kmalloc : ℕ → ℕ → ℕ → Heap src.State → Option (ℕ × Heap src.State)
  unfolding search place extend append_block
  kmalloc zero walk size h = none
  kmalloc (suc f) walk size h =
      let pages = pages_needed size in
      let (done, h') = extend pages h in
      let again : Option (ℕ × Heap src.State) =
        elim (append_block walk h'.blocks h'.free_list h.heap_end pages) [
          | none ↦ none
          | some b ↦ kmalloc f walk size (record h' { blocks = b })
        ] in
      elim (search walk h.blocks size h.free_list) [
        | none ↦ none
        | some (some curr) ↦ some (curr + header, record h { blocks = place h.blocks size curr })
        | some none ↦
            if leb heap_max h.heap_end then some (0, h) else if done then again else some (0, h')
      ]
