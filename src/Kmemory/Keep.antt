-- ===== src/Kmemory/Keep.antt =====
-- What first fit and the release keep: the blocks in use, and the bytes of the heap.
use keyhole_os.Prelude.{
  ℕ, ◌+◌, ◌≤◌, ◌<◌, ◌≡◌, ◌≢◌, refl, Bool, true, false, ◌&&◌, ◌||◌, not, Option, none, some, ◌==◌,
  leb, ltb, arith, List, [], ◌∷◌, ◌++◌, length, Bool-cases, inl, inr, ◌⊎◌,
}
use mathlib.Core.Bool.{false≢true}
use keyhole_os.Kmemory.{header}
use keyhole_os.Kmemory.Cells.{Cell, Layout, Layout-le, split, first_fit, join, release}

-- a block in use of `n` bytes begins at `a`
unfoldable pub owned : (a n : ℕ) → List Cell → Bool
owned a n [] = false
owned a n (c ∷ cs) = (not c.free && (c.addr == a && c.size == n)) || owned a n cs

-- the bytes of the blocks, headers included
unfoldable pub bytes : List Cell → ℕ
bytes [] = 0
bytes (c ∷ cs) = header + c.size + bytes cs

pub owned-below : (a n lo hi : ℕ) (cs : List Cell) → Layout lo hi cs → a < lo → owned a n cs ≡ false
unfolding owned
owned-below a n lo hi [] l h = refl
owned-below a n lo hi (c ∷ cs) l h =
    let rest = owned-below a n (c.addr + header + c.size) hi cs l.1 (omega arith) in ground arith

owned-range :
    (a n lo hi : ℕ) (cs : List Cell)
    → Layout lo hi cs
    → owned a n cs ≡ true
    → (lo ≤ a) × (a + header + n ≤ hi)
unfolding owned
owned-range a n lo hi [] l h = absurd (false≢true h)
owned-range a n lo hi (c ∷ cs) l h =
    let le = Layout-le (c.addr + header + c.size) hi cs l.1 in
    elim (Bool-cases (not c.free && (c.addr == a && c.size == n))) [
      | inl t ↦ ground arith
      | inr t ↦
          let ih = owned-range a n (c.addr + header + c.size) hi cs l.1 (ground arith) in
          (omega arith, ih.1)
    ]

-- Two blocks in use at different addresses share no byte, headers included.
pub owned-disjoint :
    (a n a' n' lo hi : ℕ) (cs : List Cell)
    → Layout lo hi cs
    → owned a n cs ≡ true
    → owned a' n' cs ≡ true
    → a ≢ a'
    → (a + header + n ≤ a') ⊎ (a' + header + n' ≤ a)
unfolding owned
owned-disjoint a n a' n' lo hi [] l h h' ne = absurd (false≢true h)
owned-disjoint a n a' n' lo hi (c ∷ cs) l h h' ne =
    let lo' = c.addr + header + c.size in
    elim (Bool-cases (owned a n cs)) [
      | inl t ↦ elim (Bool-cases (owned a' n' cs)) [
        | inl t' ↦ owned-disjoint a n a' n' lo' hi cs l.1 t t' ne
        | inr t' ↦ ground (arith, owned-range a n lo' hi cs l.1 t)
      ]
      | inr t ↦ elim (Bool-cases (owned a' n' cs)) [
        | inl t' ↦ ground (arith, owned-range a' n' lo' hi cs l.1 t')
        | inr t' ↦ ground arith
      ]
    ]

-- what taking a block of `size` bytes at `q` does to the list
pub record Granted (size q : ℕ) (cs cs' : List Cell) : Type 0 where
  pub room : ℕ
  pub enough : size ≤ room
  pub granted : owned q room cs' ≡ true
  pub fresh : (n : ℕ) → owned q n cs ≡ false
  pub kept : (a n : ℕ) → owned a n cs ≡ true → owned a n cs' ≡ true
  pub whole : bytes cs' ≡ bytes cs

split-Granted :
    (size lo hi : ℕ) (c : Cell) (cs : List Cell)
    → Layout lo hi (c ∷ cs)
    → c.free ≡ true
    → size ≤ c.size
    → Granted size c.addr (c ∷ cs) (split size c cs)
unfolding split owned bytes
split-Granted size lo hi c cs l f k = elim (Bool-cases (ltb (size + header + 16) c.size)) [
  | inl t ↦ rw t (record {
    room = size;
    enough = omega arith;
    granted = ground arith;
    fresh = λ n. ground (arith, owned-below c.addr n (c.addr + header + c.size) hi cs l.1);
    kept = λ a n h. ground arith;
    whole = ground arith;
  })
  | inr t ↦ rw t (record {
    room = c.size;
    enough = k;
    granted = ground arith;
    fresh = λ n. ground (arith, owned-below c.addr n (c.addr + header + c.size) hi cs l.1);
    kept = λ a n h. ground arith;
    whole = ground arith;
  })
]

Granted-cons :
    (size q : ℕ) (c : Cell) (cs cs' : List Cell)
    → c.addr < q
    → Granted size q cs cs'
    → Granted size q (c ∷ cs) (c ∷ cs')
unfolding owned bytes
Granted-cons size q c cs cs' lt g = record {
  room = g.room;
  enough = g.enough;
  granted = ground (arith, g.granted);
  fresh = λ n. ground (arith, g.fresh n);
  kept = λ a n h. ground (arith, g.kept a n);
  whole = omega (arith, g.whole);
}

abbrev Fit : (size lo : ℕ) → List Cell → Option (ℕ × List Cell) → Type 0
Fit size lo cs none = Unit {0}
Fit size lo cs (some (q, cs')) = (lo ≤ q) × Granted size q cs cs'

Fit-cons :
    (size lo : ℕ) (c : Cell) (cs : List Cell) (o : Option (ℕ × List Cell))
    → lo ≤ c.addr
    → Fit size (c.addr + header + c.size) cs o
    → Fit size lo (c ∷ cs) (elim o [ none ↦ none | some (q, cs') ↦ some (q, c ∷ cs') ])
Fit-cons size lo c cs none k h = tt
Fit-cons size lo c cs (some (q, cs')) k h =
    (omega arith, Granted-cons size q c cs cs' (omega arith) h.1)

first_fit-Fit :
    (size lo hi : ℕ) (cs : List Cell) → Layout lo hi cs → Fit size lo cs (first_fit size cs)
unfolding first_fit
first_fit-Fit size lo hi [] l = tt
first_fit-Fit size lo hi (c ∷ cs) l = elim (Bool-cases (c.free && leb size c.size)) [
  | inl t ↦ rw t (l.0, split-Granted size lo hi c cs l (ground arith) (ground arith))
  | inr t ↦ rw t (
      Fit-cons size lo c cs (first_fit size cs) l.0
        (first_fit-Fit size (c.addr + header + c.size) hi cs l.1))
]

-- First fit grants a block of at least `size` bytes that was not in use, keeps every block in use,
-- and neither loses nor gains a byte.
pub first_fit-Granted :
    (size q lo hi : ℕ) (cs cs' : List Cell)
    → Layout lo hi cs
    → first_fit size cs ≡ some (q, cs')
    → Granted size q cs cs'
first_fit-Granted size q lo hi cs cs' l h = (rw h at (first_fit-Fit size lo hi cs l)).1

bytes-join : (c : Cell) (cs : List Cell) → bytes (join c cs) ≡ bytes (c ∷ cs)
unfolding join bytes
bytes-join c [] = refl
bytes-join c (d ∷ cs) = ground arith

owned-join :
    (a n : ℕ) (c : Cell) (cs : List Cell) → a ≢ c.addr → owned a n (join c cs) ≡ owned a n (c ∷ cs)
unfolding join owned
owned-join a n c [] ne = ground arith
owned-join a n c (d ∷ cs) ne = ground arith

-- The release of a block loses no byte,
pub bytes-release : (p : ℕ) (cs : List Cell) → bytes (release p cs) ≡ bytes cs
unfolding release bytes
bytes-release p [] = refl
bytes-release p (c ∷ cs) = ground (arith, bytes-join c cs, bytes-release p cs)

-- and leaves the other blocks in use as they were.
pub owned-release : (p a n : ℕ) (cs : List Cell) → a ≢ p → owned a n (release p cs) ≡ owned a n cs
unfolding release owned
owned-release p a n [] ne = refl
owned-release p a n (c ∷ cs) ne = elim (Bool-cases (c.addr == p)) [
  | inl t ↦ rw t (owned-join a n c cs (ground arith))
  | inr t ↦ rw t (ground (arith, owned-release p a n cs ne))
]

pub owned-append :
    (a n : ℕ) (cs ds : List Cell) → owned a n (cs ++ ds) ≡ (owned a n cs || owned a n ds)
unfolding owned
owned-append a n [] ds = refl
owned-append a n (c ∷ cs) ds = ground (arith, owned-append a n cs ds)

pub length_of_owned : (a n : ℕ) (cs : List Cell) → owned a n cs ≡ true → 0 < length cs
unfolding owned
length_of_owned a n [] h = absurd (false≢true h)
length_of_owned a n (c ∷ cs) h = omega arith

pub owned-free : (d : Cell) → d.free ≡ true → (a n : ℕ) → owned a n (d ∷ []) ≡ false
unfolding owned
owned-free d h a n = ground arith
