-- ===== src/Kmemory/Free.antt =====
-- `kfree` of kmemory.c on a heap in order.
use keyhole_os.Prelude.{
  ℕ, ◌+◌, ◌<◌, ◌≡◌, ◌≢◌, refl, true, false, ◌==◌, arith, List, [], ◌∷◌, Bool-cases, inl, inr,
  length,
}
use keyhole_os.Kmemory.{header, heap_start, Heap, kfree}
use keyhole_os.Kmemory.Cells.{Cell, Layout, join, release}
use keyhole_os.Kmemory.Release.{starts, kfree-release}
use keyhole_os.Kmemory.Keep.{owned, owned-below, bytes, bytes-release, owned-release}
use keyhole_os.Kmemory.Malloc.{IsHeap}

owned-join_self :
    (n lo hi : ℕ) (c : Cell) (cs : List Cell)
    → Layout lo hi (c ∷ cs)
    → owned c.addr n (join c cs) ≡ false
unfolding owned join
owned-join_self n lo hi c [] l = refl
owned-join_self n lo hi c (d ∷ cs) l =
    let far = owned-below c.addr n (d.addr + header + d.size) hi cs l.1.1 (omega arith) in
    ground arith

owned-release_self :
    (q n lo hi : ℕ) (cs : List Cell) → Layout lo hi cs → owned q n (release q cs) ≡ false
unfolding owned release
owned-release_self q n lo hi [] l = refl
owned-release_self q n lo hi (c ∷ cs) l = elim (Bool-cases (c.addr == q)) [
  | inl t ↦ let e : q ≡ c.addr = ground arith in rw (t, e) (owned-join_self n lo hi c cs l)
  | inr t ↦ rw t (ground (arith, owned-release_self q n (c.addr + header + c.size) hi cs l.1))
]

release-pos : (q : ℕ) (cs : List Cell) → 0 < length cs → 0 < length (release q cs)
unfolding release join
release-pos q [] h = h
release-pos q (c ∷ []) h = ground arith
release-pos q (c ∷ d ∷ cs) h = ground arith

-- `kfree` of the address behind the header of a block of the heap leaves a heap in order. That block
-- is no longer in use, every other block in use stays as it is, and no byte of the heap is lost.
pub kfree-IsHeap :
    {S : Type 0} (q : ℕ) (h : Heap S) (cs : List Cell)
    → IsHeap h cs
    → starts q cs ≡ true
    → IsHeap (record h { blocks = kfree (q + header) h.blocks }) (release q cs)
      × ((n : ℕ) → owned q n (release q cs) ≡ false)
      × ((a n : ℕ) → a ≢ q → owned a n (release q cs) ≡ owned a n cs)
      × (bytes (release q cs) ≡ bytes cs)
kfree-IsHeap q h cs v s =
    let r =
      kfree-release h.blocks q h.free_list heap_start h.heap_end cs (omega arith)
        (omega (arith, v.small)) v.layout v.chain s in
    (
      record {
        chain = r.0;
        layout = r.1;
        small = v.small;
        some_block = release-pos q cs v.some_block;
      },
      λ n. owned-release_self q n heap_start h.heap_end cs v.layout,
      λ a n ne. owned-release q a n cs ne,
      bytes-release q cs,
    )
