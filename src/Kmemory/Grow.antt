-- ===== src/Kmemory/Grow.antt =====
-- The part of `kmalloc` that maps pages and hangs a new block behind the heap, and `kmalloc` whole.
use keyhole_os.Prelude.{
  ℕ, zero, suc, ◌+◌, ◌-◌, ◌*◌, ◌%◌, ◌^◌, ◌≤◌, ◌<◌, ◌≡◌, refl, Bool, true, ◌&&◌, some, ◌==◌, leb,
  arith, List, [], ◌∷◌, ◌++◌, length, Bool-cases, inl, inr,
}
use mathlib.Core.Bool.{false≢true}
use keyhole_os.Pmm.{page_size}
use keyhole_os.Kmemory.{
  Block, Blocks, header, heap_start, store, Heap, PageSource, last_block, append_block, extend,
}
use keyhole_os.Kmemory.Cells.{Cell, Chain, Layout, Layout-le, first_fit, split}

-- the block that `pages` new pages make
abbrev pub fresh : (addr pages : ℕ) → Cell
fresh addr pages = record { addr = addr; size = pages * page_size - header; free = true }

pub Layout-append :
    (lo mid : ℕ) (cs : List Cell) (d : Cell)
    → Layout lo mid cs
    → mid ≤ d.addr
    → Layout lo (d.addr + header + d.size) (cs ++ (d ∷ []))
Layout-append lo mid [] d l h = (omega arith, omega arith)
Layout-append lo mid (c ∷ cs) d l h = (l.0, Layout-append (c.addr + header + c.size) mid cs d l.1 h)

-- the last block of a chain, and the chain with its link to a new block written
last_block-Chain :
    (f : ℕ) (b : Blocks) (p lo hi : ℕ) (c : Cell) (cs : List Cell) (d : Cell)
    → 0 < lo
    → Layout lo hi (c ∷ cs)
    → hi ≤ d.addr
    → Chain b p (c ∷ cs)
    → b d.addr ≡ record { size = d.size; free = d.free; next = 0 }
    → length (c ∷ cs) < f
    → (q : ℕ) × (last_block f b p ≡ some q)
      × (lo ≤ q)
      × (q < hi)
      × Chain
          (store b q (record { size = (b q).size; free = (b q).free; next = d.addr }))
          p
          (c ∷ (cs ++ (d ∷ [])))
unfolding last_block
last_block-Chain zero b p lo hi c cs d pos l e h at fuel = absurd (omega arith)
last_block-Chain (suc f) b p lo hi c [] d pos l e h at fuel = (
  c.addr,
  rw h.0 (ground (arith, h.3)),
  l.0,
  omega arith,
  (
    h.0,
    ground (arith, h.1),
    ground (arith, h.2),
    (ground arith, ground (arith, at), ground (arith, at), ground (arith, at)),
  ),
)
last_block-Chain (suc f) b p lo hi c (c' ∷ cs) d pos l e h at fuel =
    let (q, run, low, high, ch) =
      last_block-Chain f b (b c.addr).next (c.addr + header + c.size) hi c' cs d (omega arith) l.1 e
        h.3 at (omega arith) in
    (
      q,
      rw h.0 (ground (arith, h.3.0)),
      omega arith,
      high,
      (let new : Block = record { size = (b q).size; free = (b q).free; next = d.addr } in
          let same : store b q new c.addr ≡ b c.addr = ground arith in rw same (h.0, h.1, h.2, ch)),
    )

-- A chain is not changed by a write behind it.
Chain-below :
    (b b' : Blocks) (p lo hi : ℕ) (cs : List Cell)
    → Layout lo hi cs
    → ((a : ℕ) → a < hi → b' a ≡ b a)
    → Chain b p cs
    → Chain b' p cs
Chain-below b b' p lo hi [] l same h = h
Chain-below b b' p lo hi (c ∷ cs) l same h =
    let le = Layout-le (c.addr + header + c.size) hi cs l.1 in
    rw (same c.addr (omega arith)) (
      h.0,
      h.1,
      h.2,
      Chain-below b b' (b c.addr).next (c.addr + header + c.size) hi cs l.1 same h.3,
    )

-- `append_block` hangs the new pages behind the chain.
pub append_block-Chain :
    (f : ℕ) (b : Blocks) (p hi pages : ℕ) (c : Cell) (cs : List Cell)
    → Layout heap_start hi (c ∷ cs)
    → 0 < pages
    → pages < 2 ^ 50
    → Chain b p (c ∷ cs)
    → length (c ∷ cs) < f
    → (b' : Blocks) × (append_block f b p hi pages ≡ some b')
      × Chain b' p (c ∷ (cs ++ (fresh hi pages ∷ [])))
unfolding append_block
append_block-Chain f b p hi pages c cs l pos small h fuel =
    let w : (pages * page_size + 2 ^ 64 - header) % 2 ^ 64 ≡ pages * page_size - header =
      omega arith in
    let new : Block = record { size = pages * page_size - header; free = true; next = 0 } in
    let b1 = store b hi new in
    let h1 = Chain-below b b1 p heap_start hi (c ∷ cs) l (λ a k. ground arith) h in
    let (q, run, low, high, ch) =
      last_block-Chain f b1 p heap_start hi c cs (fresh hi pages) (omega arith) l (omega arith) h1
        (ground arith) fuel in
    (
      store b1 q (record { size = (b1 q).size; free = (b1 q).free; next = hi }),
      rw w (ground (arith, run)),
      ch,
    )

-- what the mapping loop leaves
pub record Extended {S : Type 0} (n : ℕ) (h : Heap S) (r : Bool × Heap S) : Type 0 where
  pub blocks : r.1.blocks ≡ h.blocks
  pub free_list : r.1.free_list ≡ h.free_list
  pub low : h.heap_end ≤ r.1.heap_end
  pub high : r.1.heap_end ≤ h.heap_end + n * page_size
  pub all : r.0 ≡ true → r.1.heap_end ≡ h.heap_end + n * page_size

pub first_fit-append :
    (size : ℕ) (d : Cell) (cs : List Cell)
    → d.free ≡ true
    → size ≤ d.size
    → (q : ℕ) × (cs' : List Cell) × (first_fit size (cs ++ (d ∷ [])) ≡ some (q, cs'))
unfolding first_fit
first_fit-append size d [] f k = (d.addr, split size d [], ground arith)
first_fit-append size d (c ∷ cs) f k = elim (Bool-cases (c.free && leb size c.size)) [
  | inl t ↦ (c.addr, split size c (cs ++ (d ∷ [])), rw t)
  | inr t ↦ let (q, cs', e) = first_fit-append size d cs f k in (q, c ∷ cs', rw (t, e))
]

module _ (src : PageSource) where
  pub extend-Extended : (n : ℕ) (h : Heap src.State) → Extended n h (extend src n h)
  unfolding extend
  extend-Extended zero h = record {
    blocks = refl;
    free_list = refl;
    low = omega arith;
    high = omega arith;
    all = λ e. omega arith;
  }
  extend-Extended (suc n) h = elim (Bool-cases ((src.alloc h.pages).0 == 0)) [
    | inl t ↦ rw t (record {
      blocks = refl;
      free_list = refl;
      low = omega arith;
      high = omega arith;
      all = λ e. absurd (false≢true e);
    })
    | inr t ↦
        let ih = extend-Extended n (record h {
          heap_end = h.heap_end + page_size;
          pages = src.map h.heap_end (src.alloc h.pages).0 (src.alloc h.pages).1;
        }) in
        rw t (record {
          blocks = ih.blocks;
          free_list = ih.free_list;
          low = omega (arith, ih.low);
          high = omega (arith, ih.high);
          all = λ e. omega (arith, ih.all e);
        })
  ]
