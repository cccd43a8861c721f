-- ===== src/Kmemory/Place.antt =====
-- The part of `kmalloc` that finds and takes a block, against first fit on the list of blocks.
use keyhole_os.Prelude.{
  ℕ, zero, suc, ◌+◌, ◌-◌, ◌^◌, ◌≤◌, ◌<◌, ◌≡◌, ◌≢◌, refl, true, false, ◌&&◌, Option, none, some, leb,
  ltb, arith, List, [], ◌∷◌, length, Bool-cases, inl, inr,
}
use keyhole_os.Kmemory.{Blocks, header, search, place}
use keyhole_os.Kmemory.Cells.{
  Cell, Chain, Layout, Layout-le, Layout-weaken, Chain-frame, split, first_fit,
}

-- what the search answers, and what the taking of the block that it found leaves
abbrev pub Placed :
    Blocks → (size p lo hi : ℕ) → Option (ℕ × List Cell) → Option (Option ℕ) → Type 0
Placed b size p lo hi none r = r ≡ some none
Placed b size p lo hi (some (q, cs)) r =
    (r ≡ some (some q))
    × (lo ≤ q)
    × Chain (place b size q) p cs
    × Layout lo hi cs
    × ((a : ℕ) → a < q → place b size q a ≡ b a)

place-frame : (b : Blocks) (size q a : ℕ) → a < q → place b size q a ≡ b a
unfolding place
place-frame b size q a h = ground arith

Layout-split :
    (size lo hi : ℕ) (c : Cell) (cs : List Cell)
    → size ≤ c.size
    → Layout lo hi (c ∷ cs)
    → Layout lo hi (split size c cs)
unfolding split
Layout-split size lo hi c cs k l = elim (Bool-cases (ltb (size + header + 16) c.size)) [
  | inl h ↦
      let e : c.addr + header + size + header + (c.size - size - header)
          ≡ c.addr + header + c.size =
        ground arith in
      rw h (l.0, (omega arith, rw e l.1))
  | inr h ↦ rw h l
]

-- a block split in two: its own header, the new one behind it, and the rest as it was
Chain-cut :
    (b b' : Blocks) (size p hi n : ℕ) (c : Cell) (cs : List Cell)
    → p ≡ c.addr
    → n ≡ c.addr + header + size
    → size + header + 16 < c.size
    → Layout (c.addr + header + c.size) hi cs
    → Chain b (b c.addr).next cs
    → b' c.addr ≡ record { size = size; free = false; next = n }
    → b' n ≡ record { size = c.size - size - header; free = true; next = (b c.addr).next }
    → ((a : ℕ) → a ≢ c.addr → a ≢ n → b' a ≡ b a)
    → Chain b' p (
        record { addr = c.addr; size = size; free = false }
        ∷ record { addr = c.addr + header + size; size = c.size - size - header; free = true }
        ∷ cs)
Chain-cut b b' size p hi n c cs e en t l h at_curr at_new same =
    rw (at_curr, ← en, at_new)
      (
        e,
        refl,
        refl,
        (
          refl,
          refl,
          refl,
          Chain-frame b b' (b c.addr).next (c.addr + header + c.size) hi cs l
              (λ a k. same a (omega arith) (omega arith)) h,
        ),
      )

-- a chain whose first header was written anew, and nothing else
pub Chain-head :
    (b b' : Blocks) (p n hi : ℕ) (c : Cell) (cs : List Cell)
    → p ≡ c.addr
    → Layout (c.addr + 1) hi cs
    → Chain b n cs
    → b' c.addr ≡ record { size = c.size; free = c.free; next = n }
    → ((a : ℕ) → a ≢ c.addr → b' a ≡ b a)
    → Chain b' p (c ∷ cs)
Chain-head b b' p n hi c cs e l h at_curr same =
    rw at_curr
      (e, refl, refl, Chain-frame b b' n (c.addr + 1) hi cs l (λ a k. same a (omega arith)) h)

module _ (b : Blocks) (size curr : ℕ) (small : (b curr).size < 2 ^ 63) where
  place_cut :
      size + header + 16 < (b curr).size
      → (place b size curr curr ≡ record { size = size; free = false; next = curr + header + size })
        × (place b size curr (curr + header + size)
            ≡ record { size = (b curr).size - size - header; free = true; next = (b curr).next })
        × ((a : ℕ) → a ≢ curr → a ≢ curr + header + size → place b size curr a ≡ b a)
  unfolding place
  place_cut h = (ground arith, ground arith, λ a ne nn. ground arith)

  place_whole :
      size ≤ (b curr).size
      → (b curr).size ≤ size + header + 16
      → (place b size curr curr
          ≡ record { size = (b curr).size; free = false; next = (b curr).next })
        × ((a : ℕ) → a ≢ curr → place b size curr a ≡ b a)
  unfolding place
  place_whole k h = (ground arith, λ a ne. ground arith)

Chain-split :
    (b : Blocks) (size p lo hi : ℕ) (c : Cell) (cs : List Cell)
    → size ≤ c.size
    → hi < 2 ^ 63
    → Layout lo hi (c ∷ cs)
    → Chain b p (c ∷ cs)
    → Chain (place b size c.addr) p (split size c cs)
unfolding split
Chain-split b size p lo hi c cs k small l h =
    let le = Layout-le (c.addr + header + c.size) hi cs l.1 in
    let b' = place b size c.addr in
    elim (Bool-cases (ltb (size + header + 16) c.size)) [
      | inl t ↦
          let at = place_cut b size c.addr (omega arith) (ground (arith, h.1)) in
          rw t (
            Chain-cut b b' size p hi (c.addr + header + size) c cs h.0 refl (ground arith) l.1 h.3
              at.0 (rw h.1 at (at.1)) at.2)
      | inr t ↦
          let at = place_whole b size c.addr (omega arith) (omega arith) (ground (arith, h.1)) in
          rw t (
            Chain-head b b' p _ hi (record c { free = false }) cs h.0
              (Layout-weaken (c.addr + header + c.size) (c.addr + 1) hi cs (omega arith) l.1) h.3
              (rw h.1 at (at.0)) at.1)
    ]

-- The search meets the block that first fit takes, and taking it makes the chain that first fit
-- makes, with fuel for each block and the end.
pub search-first_fit :
    (f : ℕ) (b : Blocks) (size p lo hi : ℕ) (cs : List Cell)
    → 0 < lo
    → hi < 2 ^ 63
    → Layout lo hi cs
    → Chain b p cs
    → length cs < f
    → Placed b size p lo hi (first_fit size cs) (search f b size p)
unfolding search first_fit
search-first_fit zero b size p lo hi cs pos small l h fuel = absurd (omega arith)
search-first_fit (suc f) b size p lo hi [] pos small l h fuel = ground arith
search-first_fit (suc f) b size p lo hi (c ∷ cs) pos small l h fuel =
    elim (Bool-cases (c.free && leb size c.size)) [
      | inl t ↦
          let fits : size ≤ c.size = ground arith in
          let found : search (suc f) b size p ≡ some (some c.addr) =
            rw h.0 (ground (arith, h.1, h.2)) in
          rw t (
            found,
            l.0,
            Chain-split b size p lo hi c cs fits small l h,
            Layout-split size lo hi c cs fits l,
            place-frame b size c.addr,
          )
      | inr t ↦
          let skip : search (suc f) b size p ≡ search f b size (b c.addr).next =
            rw h.0 (ground (arith, h.1, h.2)) in
          rw (t, skip)
            (step (first_fit size cs) (search f b size (b c.addr).next) (
              search-first_fit f b size (b c.addr).next (c.addr + header + c.size) hi cs
                (omega arith) small l.1 h.3 (omega arith)))
    ]
  where
    step :
        (o : Option (ℕ × List Cell)) (r : Option (Option ℕ))
        → Placed b size (b c.addr).next (c.addr + header + c.size) hi o r
        → Placed b size p lo hi (elim o [ none ↦ none | some (q, cs') ↦ some (q, c ∷ cs') ]) r
    step none r h' = h'
    step (some (q, cs')) r h' =
        let at : place b size q c.addr ≡ b c.addr = h'.4 c.addr (omega arith) in
        (h'.0, omega arith, rw at (h.0, h.1, h.2, h'.2), (l.0, h'.3), h'.4)
