-- ===== src/Vfs/Tree/Find.antt =====
-- `find_child` in the tree of vfs.c: the search by name in the list of children.
use keyhole_os.Prelude.{
  ℕ, zero, suc, ◌<◌, ◌≡◌, refl, Bool, true, false, Option, none, some, ◌==◌, if◌then◌else◌, List,
  [], ◌∷◌, length, Bool-cases, inl, inr, ◌⊎◌, arith,
}
use keyhole_os.Vfs.{Node, Vfs, get, same_text, find_sibling, find_child}
use keyhole_os.Vfs.Tree.{has, Siblings, IsTree, nonnull, child-live}

-- fuel for every list of children and every way to the root
pub record IsEnough (f : ℕ) (v : Vfs) (cs : ℕ → List ℕ) (depth : ℕ → ℕ) : Type 0 where
  pub room : (d : ℕ) → length (cs d) < f
  pub high : (c : ℕ) (n : Node) → get v c ≡ some n → depth c < f

abbrev pub name_is : (name : List ℕ) → Option Node → Bool
name_is name none = false
name_is name (some n) = same_text n.name name

-- the first of the nodes `xs` that has the name, or NULL
abbrev pub named : Vfs → (name : List ℕ) → List ℕ → ℕ
named v name [] = 0
named v name (x ∷ xs) = if name_is name (get v x) then x else named v name xs

find_sibling-named :
    (f : ℕ) (v : Vfs) (p : ℕ) (name : List ℕ) (xs : List ℕ)
    → Siblings v p xs
    → length xs < f
    → find_sibling f v p name ≡ some (named v name xs)
unfolding find_sibling
find_sibling-named zero v p name xs s lt = absurd (omega (arith, lt))
find_sibling-named (suc f) v p name [] s lt = rw s refl
find_sibling-named (suc f) v p name (x ∷ xs) s lt =
    let rest = find_sibling-named f v s.1.0.next_sibling name xs s.1.2 (omega (arith, lt)) in
    let live : (x == 0) ≡ false = nonnull x v s.1.0 s.1.1 in
    elim (Bool-cases (same_text s.1.0.name name)) [
      | inl hit ↦ rw (s.0, s.1.1, live, hit) refl
      | inr miss ↦ rw (s.0, s.1.1, live, miss) rest
    ]

-- what is found by name stands in the list
pub named-cases :
    (v : Vfs) (name xs : List ℕ) → (named v name xs ≡ 0) ⊎ (has (named v name xs) xs ≡ true)
named-cases v name [] = inl refl
named-cases v name (x ∷ xs) = step (name_is name (get v x)) (named-cases v name xs)
  where
    step :
        (b : Bool)
        → (named v name xs ≡ 0) ⊎ (has (named v name xs) xs ≡ true)
        → ((if b then x else named v name xs) ≡ 0)
          ⊎ (has (if b then x else named v name xs) (x ∷ xs) ≡ true)
    step true c = inr (ground arith)
    step false (inl z) = inl z
    step false (inr h) = inr (ground (arith, h))

module _ {v : Vfs} {cs : ℕ → List ℕ} {depth : ℕ → ℕ} (t : IsTree v cs depth) where
  -- With a step more than there are children `find_child` ends, and finds the first child of that name, or
  -- NULL where there is none.
  pub find_child-named :
      (f d : ℕ) (n : Node) (name : List ℕ)
      → get v d ≡ some n
      → length (cs d) < f
      → find_child f v d name ≡ some (named v name (cs d))
  unfolding find_child
  find_child-named f d n name at lt =
      rw at (find_sibling-named f v n.first_child name (cs d) (t.listed d n at) lt)

  -- what is found is NULL or live
  pub named-live :
      (d : ℕ) (name : List ℕ)
      → (named v name (cs d) ≡ 0) ⊎ ((n : Node) × (get v (named v name (cs d)) ≡ some n))
  named-live d name = pick (named-cases v name (cs d))
    where
      pick :
          (named v name (cs d) ≡ 0) ⊎ (has (named v name (cs d)) (cs d) ≡ true)
          → (named v name (cs d) ≡ 0) ⊎ ((n : Node) × (get v (named v name (cs d)) ≡ some n))
      pick (inl z) = inl z
      pick (inr h) = inr (child-live t d (named v name (cs d)) h).1
