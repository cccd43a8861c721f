-- ===== src/Kmemory/Release.antt =====
-- `kfree` against the release on the list of blocks, and what taking and releasing keep.
use keyhole_os.Prelude.{
  ℕ, ◌+◌, ◌-◌, ◌^◌, ◌≤◌, ◌<◌, ◌≡◌, ◌≢◌, refl, ◌∙◌, Bool, true, false, ◌&&◌, ◌||◌, not, ◌==◌, arith,
  List, [], ◌∷◌, Bool-cases, inl, inr,
}
use keyhole_os.Kmemory.{Blocks, header, kfree}
use keyhole_os.Kmemory.Cells.{Cell, Chain, Layout, Layout-le, Layout-weaken, join, release}
use keyhole_os.Kmemory.Place.{Chain-head}

-- some block begins at `p`
unfoldable pub starts : ℕ → List Cell → Bool
starts p [] = false
starts p (c ∷ cs) = c.addr == p || starts p cs

module _ (b : Blocks) (p : ℕ) where
  kfree_alone :
      (not ((b p).next == 0) && (b (b p).next).free) ≡ false
      → (b p).next ≢ p
      → (kfree (p + header) b p ≡ record { size = (b p).size; free = true; next = (b p).next })
        × ((a : ℕ) → a ≢ p → kfree (p + header) b a ≡ b a)
  unfolding kfree
  kfree_alone h ne =
      let e : p + header - header ≡ p = omega arith in rw e (ground arith, λ a na. ground arith)

  kfree_join :
      (b p).next ≢ 0
      → (b (b p).next).free ≡ true
      → (b p).next ≢ p
      → (b p).size + (header + (b (b p).next).size) < 2 ^ 64
      → (kfree (p + header) b p ≡ record {
        size = (b p).size + (header + (b (b p).next).size);
        free = true;
        next = (b (b p).next).next;
      })
        × ((a : ℕ) → a ≢ p → kfree (p + header) b a ≡ b a)
  unfolding kfree
  kfree_join h f ne small =
      let e : p + header - header ≡ p = omega arith in rw e (ground arith, λ a na. ground arith)

Layout-join :
    (lo hi : ℕ) (c : Cell) (cs : List Cell) → Layout lo hi (c ∷ cs) → Layout lo hi (join c cs)
unfolding join
Layout-join lo hi c [] l = l
Layout-join lo hi c (d ∷ cs) l = elim (Bool-cases d.free) [
  | inl t ↦ rw t (l.0, Layout-weaken (d.addr + header + d.size) _ hi cs (ground arith) l.1.1)
  | inr t ↦ rw t l
]

join-nil : (c : Cell) → join c [] ≡ record c { free = true } ∷ []
unfolding join
join-nil c = refl

join-free :
    (c d : Cell) (cs : List Cell)
    → d.free ≡ true
    → join c (d ∷ cs)
      ≡ record { addr = c.addr; size = c.size + (header + d.size); free = true } ∷ cs
unfolding join
join-free c d cs t = rw t

join-busy :
    (c d : Cell) (cs : List Cell)
    → d.free ≡ false
    → join c (d ∷ cs) ≡ record c { free = true } ∷ d ∷ cs
unfolding join
join-busy c d cs t = ground arith

Chain-join :
    (b : Blocks) (p lo hi : ℕ) (c : Cell) (cs : List Cell)
    → 0 < lo
    → hi < 2 ^ 63
    → Layout lo hi (c ∷ cs)
    → Chain b p (c ∷ cs)
    → Chain (kfree (c.addr + header) b) p (join c cs)
      × ((a : ℕ) → a ≢ c.addr → kfree (c.addr + header) b a ≡ b a)
Chain-join b p lo hi c [] pos small l h =
    let at = kfree_alone b c.addr (rw h.3 refl) (rw h.3 (omega arith)) in
    rw join-nil (
      Chain-head b _ p _ (c.addr + 1) (record c { free = true }) [] h.0 (omega arith) h.3
          (rw h.1 at (at.0)) at.1,
      at.1,
    )
Chain-join b p lo hi c (d ∷ cs) pos small l h =
    let le = Layout-le (d.addr + header + d.size) hi cs l.1.1 in
    let ne : (b c.addr).next ≢ c.addr = rw h.3.0 (omega arith) in
    elim (Bool-cases d.free) [
      | inl t ↦
          let at =
            kfree_join b c.addr (rw h.3.0 (omega arith)) (rw h.3.0 (h.3.2 ∙ t)) ne
              (rw (h.3.0, h.1, h.3.1) (omega arith)) in
          let head : kfree (c.addr + header) b c.addr
              ≡ record { size = c.size + (header + d.size); free = true; next = (b d.addr).next } =
            rw (h.1, h.3.0, h.3.1) at (at.0) in
          rw (join-free c d cs t) (
            Chain-head b _ p _ hi
                (record { addr = c.addr; size = c.size + (header + d.size); free = true }) cs h.0
                (Layout-weaken (d.addr + header + d.size) (c.addr + 1) hi cs (omega arith) l.1.1)
                h.3.3 head at.1,
            at.1,
          )
      | inr t ↦
          let at = kfree_alone b c.addr (rw h.3.0 (ground (arith, h.3.2))) ne in
          rw (join-busy c d cs t) (
            Chain-head b _ p _ hi (record c { free = true }) (d ∷ cs) h.0 (omega arith, l.1.1) h.3
                (rw h.1 at (at.0)) at.1,
            at.1,
          )
    ]

-- `kfree` of the address that belongs to a block of the chain leaves the chain that the release on
-- the list makes, in order and without overlaps.
pub kfree-release :
    (b : Blocks) (q p lo hi : ℕ) (cs : List Cell)
    → 0 < lo
    → hi < 2 ^ 63
    → Layout lo hi cs
    → Chain b p cs
    → starts q cs ≡ true
    → Chain (kfree (q + header) b) p (release q cs)
      × Layout lo hi (release q cs)
      × (lo ≤ q)
      × ((a : ℕ) → a ≢ q → kfree (q + header) b a ≡ b a)
unfolding release starts
kfree-release b q p lo hi [] pos small l h s = cc
kfree-release b q p lo hi (c ∷ cs) pos small l h s = elim (Bool-cases (c.addr == q)) [
  | inl t ↦
      let e : q ≡ c.addr = ground arith in
      let j = Chain-join b p lo hi c cs pos small l h in
      rw (t, e) (j.0, Layout-join lo hi c cs l, l.0, j.1)
  | inr t ↦
      let ih =
        kfree-release b q (b c.addr).next (c.addr + header + c.size) hi cs (omega arith) small l.1
          h.3 (ground arith) in
      let at : kfree (q + header) b c.addr ≡ b c.addr = ih.3 c.addr (ground arith) in
      rw (t, at) ((h.0, h.1, h.2, ih.0), (l.0, ih.1), omega arith, ih.3)
]
