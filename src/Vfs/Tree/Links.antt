-- ===== src/Vfs/Tree/Links.antt =====
-- The chains of children in the tree of vfs.c where the links of one node are written anew.
use keyhole_os.Prelude.{
  ℕ, zero, suc, ◌≤◌, ◌≡◌, refl, sym, ap, ◌∙◌, true, false, some, ◌==◌, if◌then◌else◌, List, [], ◌∷◌,
  ◌++◌, length, Bool-cases, inl, inr, ◌⊎◌, arith,
}
use keyhole_os.Vfs.{Node, Vfs, get}
use keyhole_os.Vfs.Calls.{last_child}
use keyhole_os.Vfs.Tree.{
  has, Distinct, Siblings, IsTree, unlinked, nonnull, Siblings-frame, parents_eq,
}

-- `q` has the node `m'` in place of `m`; at `s` a node is made or freed, the other nodes are the same.
pub record Relinked (v v' : Vfs) (s q : ℕ) (m m' : Node) : Type 0 where
  pub at : get v q ≡ some m
  pub alike : unlinked m' ≡ unlinked m
  pub apart : (q == s) ≡ false
  pub looked : (a : ℕ) → (a == s) ≡ false → get v' a ≡ (if a == q then some m' else get v a)

module _ {v v' : Vfs} {s q : ℕ} {m m' : Node} (r : Relinked v v' s q m m') where
  pub looked_here : get v' q ≡ some m'
  looked_here =
      let self : (q == q) ≡ true = ground arith in
      r.looked q r.apart ∙ ap (λ b. if b then some m' else get v q) self

  pub looked_there : (a : ℕ) → (a == s) ≡ false → (a == q) ≡ false → get v' a ≡ get v a
  looked_there a ns nq = r.looked a ns ∙ ap (λ b. if b then some m' else get v a) nq

  -- A directory whose chain does not go through the spot keeps it.
  pub Siblings-Relinked :
      (p : ℕ) (xs : List ℕ)
      → has s xs ≡ false
      → (has q xs ≡ true → m'.next_sibling ≡ m.next_sibling)
      → Siblings v p xs
      → Siblings v' p xs
  Siblings-Relinked p xs out next chain =
      Siblings-frame v v' p xs chain (λ a n h at. step a n h at (Bool-cases (a == q)))
    where
      step :
          (a : ℕ) (n : Node)
          → has a xs ≡ true
          → get v a ≡ some n
          → (((a == q) ≡ true) ⊎ ((a == q) ≡ false))
          → (n' : Node) × (get v' a ≡ some n') × (n'.next_sibling ≡ n.next_sibling)
      step a n h at (inl e) =
          let eq : a ≡ q = ground arith in
          let there = r.at in
          let here : get v q ≡ some n = rw (← eq) at in
          let same : m ≡ n = cc in
          (m', rw eq looked_here, next (rw (← eq) h) ∙ ap (λ k. k.next_sibling) same)
      step a n h at (inr e) =
          let not_s : (a == s) ≡ false = elim (Bool-cases (a == s)) [
            | inl z ↦
                let eq : a ≡ s = ground arith in
                let in_list : has s xs ≡ true = rw (← eq) h in absurd (cc)
            | inr z ↦ z
          ] in
          (n, looked_there a not_s e ∙ at, refl)

module _ {v : Vfs} {cs : ℕ → List ℕ} {depth : ℕ → ℕ} (t : IsTree v cs depth) where
  -- Where the spot is the directory `parent` or one of its children, the other directories keep their chains.
  pub listed-Relinked :
      {v' : Vfs} {s q : ℕ} {m m' : Node} (r : Relinked v v' s q m m') (parent : ℕ)
      → ((q == parent) ≡ false → m'.first_child ≡ m.first_child)
      → (has q (cs parent) ≡ false → m'.next_sibling ≡ m.next_sibling)
      → (d : ℕ) (n' : Node) → get v' d ≡ some n'
      → (d == s) ≡ false
      → (d == parent) ≡ false
      → has s (cs d) ≡ false
      → Siblings v' n'.first_child (cs d)
  listed-Relinked {v'} {s} {q} {m} {m'} r parent first next d n' e ns np out =
      elim (Bool-cases (d == q)) [
        | inl h ↦
            let eq : d ≡ q = ground arith in
            let here : get v' q ≡ some n' = rw (← eq) e in
            let made = looked_here r in
            let is : n' ≡ m' = cc in
            let old : get v d ≡ some m = rw eq r.at in
            let same : n'.first_child ≡ m.first_child =
              ap (λ k. k.first_child) is ∙ first (rw (← eq) np) in
            rw same (through m (t.listed d m old))
        | inr h ↦
            let old : get v d ≡ some n' = sym (looked_there r d ns h) ∙ e in
            through n' (t.listed d n' old)
      ]
    where
      through : (n : Node) → Siblings v n.first_child (cs d) → Siblings v' n.first_child (cs d)
      through n chain =
          Siblings-Relinked r n.first_child (cs d) out
            (λ h. next (elsewhere h (Bool-cases (has q (cs parent))))) chain
        where
          elsewhere :
              has q (cs d) ≡ true
              → ((has q (cs parent) ≡ true) ⊎ (has q (cs parent) ≡ false))
              → has q (cs parent) ≡ false
          elsewhere h (inl k) = absurd (let one = parents_eq t d parent q h k in ground arith)
          elsewhere h (inr k) = k

abbrev pub last : ℕ → List ℕ → ℕ
last x [] = x
last x (y ∷ ys) = last y ys

pub has-last : (x : ℕ) (xs : List ℕ) → has (last x xs) (x ∷ xs) ≡ true
has-last x [] = ground arith
has-last x (y ∷ ys) = let rest = has-last y ys in ground arith

-- With a step for each child `last_child` comes to the last one.
pub last_child-last :
    (f : ℕ) (v : Vfs) (p x : ℕ) (xs : List ℕ)
    → Siblings v p (x ∷ xs)
    → length (x ∷ xs) ≤ f
    → last_child f v p ≡ some (last x xs)
unfolding last_child
last_child-last zero v p x xs s le = absurd (omega (arith, le))
last_child-last (suc f) v p x [] s le =
    let end : (s.1.0.next_sibling == 0) ≡ true = ground (arith, s.1.2) in rw (s.0, s.1.1, end) refl
last_child-last (suc f) v p x (y ∷ ys) s le =
    let more : (s.1.0.next_sibling == 0) ≡ false = rw s.1.2.0 (nonnull y v s.1.2.1.0 s.1.2.1.1) in
    rw (s.0, s.1.1, more) (last_child-last f v s.1.0.next_sibling y ys s.1.2 (omega (arith, le)))

-- The chain goes on to a new node once its last node leads there.
pub Siblings-snoc :
    {v v' : Vfs} {fresh : ℕ} {m : Node} (node : Node) (p x : ℕ) (xs : List ℕ)
    → Relinked v v' fresh (last x xs) m (record m { next_sibling = fresh })
    → Siblings v p (x ∷ xs)
    → Distinct (x ∷ xs)
    → has fresh (x ∷ xs) ≡ false
    → get v' fresh ≡ some node
    → node.next_sibling ≡ 0
    → Siblings v' p ((x ∷ xs) ++ (fresh ∷ []))
Siblings-snoc {fresh} {m} node p x [] r s d out new end =
    (s.0, (record m { next_sibling = fresh }, looked_here r, (refl, (node, new, end))))
Siblings-snoc {fresh} node p x (y ∷ ys) r s d out new end =
    let far : (x == last y ys) ≡ false = not_last (Bool-cases (x == last y ys)) in
    let old : (x == fresh) ≡ false = ground (arith, out) in
    (
      s.0,
      (
        s.1.0,
        looked_there r x old far ∙ s.1.1,
        Siblings-snoc node s.1.0.next_sibling y ys r s.1.2 d.1 (ground (arith, out)) new end,
      ),
    )
  where
    not_last : (((x == last y ys) ≡ true) ⊎ ((x == last y ys) ≡ false)) → (x == last y ys) ≡ false
    not_last (inl e) =
        let eq : x ≡ last y ys = ground arith in
        let in_rest = ap (λ a. has a (y ∷ ys)) eq ∙ has-last y ys in absurd (let out = d.0 in cc)
    not_last (inr e) = e
