-- ===== src/Kmemory/Cells.antt =====
-- The heap as a list: each block's address, size and state, in the chain's order. What first fit and
-- the join of neighbours are on such a list.
use keyhole_os.Prelude.{
  ℕ, ◌+◌, ◌-◌, ◌≤◌, ◌≡◌, Bool, true, false, ◌&&◌, Option, none, some, ◌==◌, leb, ltb, if◌then◌else◌,
  arith, List, [], ◌∷◌,
}
use keyhole_os.Kmemory.{Blocks, header}

pub record Cell : Type 0 where
  pub addr : ℕ
  pub size : ℕ
  pub free : Bool

-- from `p` on the `next` pointers lead through the blocks `cs` to NULL
abbrev pub Chain : Blocks → ℕ → List Cell → Type 0
Chain b p [] = p ≡ 0
Chain b p (c ∷ cs) =
    (p ≡ c.addr)
    × ((b c.addr).size ≡ c.size)
    × ((b c.addr).free ≡ c.free)
    × Chain b (b c.addr).next cs

-- the blocks stand between `lo` and `hi` in order, and no two of them overlap
abbrev pub Layout : (lo hi : ℕ) → List Cell → Type 0
Layout lo hi [] = lo ≤ hi
Layout lo hi (c ∷ cs) = (lo ≤ c.addr) × Layout (c.addr + header + c.size) hi cs

pub Layout-le : (lo hi : ℕ) (cs : List Cell) → Layout lo hi cs → lo ≤ hi
Layout-le lo hi [] h = h
Layout-le lo hi (c ∷ cs) h = omega (arith, Layout-le (c.addr + header + c.size) hi cs h.1)

pub Layout-weaken : (lo lo' hi : ℕ) (cs : List Cell) → lo' ≤ lo → Layout lo hi cs → Layout lo' hi cs
Layout-weaken lo lo' hi [] k h = omega arith
Layout-weaken lo lo' hi (c ∷ cs) k h = (omega arith, h.1)

-- A chain is not changed by a write in front of it.
pub Chain-frame :
    (b b' : Blocks) (p lo hi : ℕ) (cs : List Cell)
    → Layout lo hi cs
    → ((a : ℕ) → lo ≤ a → b' a ≡ b a)
    → Chain b p cs
    → Chain b' p cs
Chain-frame b b' p lo hi [] l same h = h
Chain-frame b b' p lo hi (c ∷ cs) l same h = rw (same c.addr l.0) (
  h.0,
  h.1,
  h.2,
  Chain-frame b b' (b c.addr).next (c.addr + header + c.size) hi cs l.1
      (λ a k. same a (omega arith)) h.3,
)

-- The taken block, split if what is left makes a block of more than 16 bytes.
unfoldable pub split : ℕ → Cell → List Cell → List Cell
split size c cs =
    if ltb (size + header + 16) c.size
    then record { addr = c.addr; size = size; free = false }
      ∷ record { addr = c.addr + header + size; size = c.size - size - header; free = true }
      ∷ cs
    else record c { free = false } ∷ cs

-- first fit: the address of the block taken, and the blocks then
unfoldable pub first_fit : ℕ → List Cell → Option (ℕ × List Cell)
first_fit size [] = none
first_fit size (c ∷ cs) =
    if c.free && leb size c.size
    then some (c.addr, split size c cs)
    else elim (first_fit size cs) [ none ↦ none | some (p, cs') ↦ some (p, c ∷ cs') ]

-- the block at `p` given back, and joined to the block behind it if that is free
unfoldable pub join : Cell → List Cell → List Cell
join c [] = record c { free = true } ∷ []
join c (d ∷ cs) =
    if d.free
    then record { addr = c.addr; size = c.size + (header + d.size); free = true } ∷ cs
    else record c { free = true } ∷ d ∷ cs

unfoldable pub release : ℕ → List Cell → List Cell
unfolding join
release p [] = []
release p (c ∷ cs) = if c.addr == p then join c cs else c ∷ release p cs

pub Layout-raise : (lo hi hi' : ℕ) (cs : List Cell) → hi ≤ hi' → Layout lo hi cs → Layout lo hi' cs
Layout-raise lo hi hi' [] k h = omega arith
Layout-raise lo hi hi' (c ∷ cs) k h = (h.0, Layout-raise (c.addr + header + c.size) hi hi' cs k h.1)
