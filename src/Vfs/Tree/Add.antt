-- ===== src/Vfs/Tree/Add.antt =====
-- `add_child`, and the calls that make nodes, in the tree of vfs.c.
use mathlib.Core.Option
use keyhole_os.Prelude.{
  ℕ, ◌≤◌, ◌≡◌, refl, sym, ap, ◌∙◌, true, false, Option, none, some, ◌==◌, if◌then◌else◌, List, [],
  ◌∷◌, ◌++◌, length, Bool-cases, inl, inr, ◌⊎◌, arith,
}
use keyhole_os.Vfs.{Node, Vfs, is_directory, get, set_node}
use keyhole_os.Vfs.Calls.{add_child}
use keyhole_os.Vfs.Tree.{
  has, Distinct, Siblings, Siblings-frame, IsTree, unlinked, Alike, get-set_node, nonnull,
  Siblings-live, child-ne,
}
use keyhole_os.Vfs.Tree.Links.{
  Relinked, looked_here, looked_there, listed-Relinked, last, has-last, last_child-last,
  Siblings-snoc,
}
use keyhole_os.Vfs.Tree.Grow.{grown, grown_depth, Added, grown-IsTree, not_fresh, fresh_childless}

-- the new node of a call under `parent`
pub record IsNewNode (v : Vfs) (fresh parent : ℕ) (node p : Node) : Type 0 where
  pub fresh_nonnull : (fresh == 0) ≡ false
  pub unused : get v fresh ≡ none
  pub at : get v parent ≡ some p
  pub is_dir : is_directory p ≡ true
  pub below : node.parent ≡ parent
  pub no_child : node.first_child ≡ 0
  pub no_sibling : node.next_sibling ≡ 0

-- What a successful call leaves: the tree with the node as the last child of `parent`.
pub record Grown (v v' : Vfs) (cs : ℕ → List ℕ) (depth : ℕ → ℕ) (fresh parent : ℕ) (node : Node)
    : Type 0 where
  pub added : Added v v' fresh parent node
  pub tree : IsTree v' (grown fresh parent cs) (grown_depth fresh parent depth)
  pub here_same : v'.current_dir ≡ v.current_dir
  pub mode_same : v'.sudo_mode ≡ v.sudo_mode

module _ {v : Vfs} {cs : ℕ → List ℕ} {depth : ℕ → ℕ} (t : IsTree v cs depth) {fresh parent : ℕ}
    {node p : Node} (n : IsNewNode v fresh parent node p) where
  -- the node written, and the link of `q` to it
  abbrev linked : (q : ℕ) → Node → Vfs
  linked q m' = set_node q (some m') (set_node fresh (some node) v)

  linked-Relinked :
      (q : ℕ) (m m' : Node)
      → get v q ≡ some m
      → unlinked m' ≡ unlinked m
      → Relinked v (linked q m') fresh q m m'
  linked-Relinked q m m' at alike = record {
    at = at;
    alike = alike;
    apart = not_fresh t fresh q m n.unused at;
    looked = λ a ne.
        get-set_node q (some m') (set_node fresh (some node) v) a (nonnull q v m at)
        ∙ ap (λ o. if a == q then some m' else o)
            (get-set_node fresh (some node) v a n.fresh_nonnull
              ∙ ap (λ b. if b then some node else get v a) ne);
  }

  linked-Added :
      (q : ℕ) (m m' : Node)
      → get v q ≡ some m
      → unlinked m' ≡ unlinked m
      → Added v (linked q m') fresh parent node
  linked-Added q m m' at alike =
      let r = linked-Relinked q m m' at alike in
      let self : (fresh == fresh) ≡ true = ground arith in
      let far : (fresh == q) ≡ false = ground (arith, r.apart) in
      record {
        unused = n.unused;
        directory = p;
        at = n.at;
        is_dir = n.is_dir;
        below = n.below;
        new =
            get-set_node q (some m') (set_node fresh (some node) v) fresh (nonnull q v m at)
            ∙ ap (λ b. if b then some m' else get (set_node fresh (some node) v) fresh) far
            ∙ get-set_node fresh (some node) v fresh n.fresh_nonnull
            ∙ ap (λ b. if b then some node else get v fresh) self;
        same = λ a ne. step a ne r (Bool-cases (a == q));
        root_same = refl;
      }
    where
      step :
          (a : ℕ)
          → (a == fresh) ≡ false
          → Relinked v (linked q m') fresh q m m'
          → (((a == q) ≡ true) ⊎ ((a == q) ≡ false))
          → Alike (get (linked q m') a) (get v a)
      step a ne r (inl e) =
          let eq : a ≡ q = ground arith in
          rw eq (
            ap (λ o. Option.map unlinked o) (looked_here r)
            ∙ ap some alike
            ∙ sym (ap (λ o. Option.map unlinked o) at))
      step a ne r (inr e) = ap (λ o. Option.map unlinked o) (looked_there r a ne e)

  -- The tree has grown if the chain of `parent` has.
  linked-Grown :
      (q : ℕ) (m m' : Node)
      → get v q ≡ some m
      → unlinked m' ≡ unlinked m
      → ((q == parent) ≡ false → m'.first_child ≡ m.first_child)
      → (has q (cs parent) ≡ false → m'.next_sibling ≡ m.next_sibling)
      → ((n' : Node)
          → get (linked q m') parent ≡ some n'
          → Siblings (linked q m') n'.first_child (cs parent ++ (fresh ∷ [])))
      → Grown v (linked q m') cs depth fresh parent node
  linked-Grown q m m' at alike first next whole = record {
    added = added;
    tree =
        grown-IsTree t added
          (λ d n' e. listed d n' e (Bool-cases (d == fresh)) (Bool-cases (d == parent)));
    here_same = refl;
    mode_same = refl;
  }
    where
      added : Added v (linked q m') fresh parent node
      added = linked-Added q m m' at alike

      listed :
          (d : ℕ) (n' : Node)
          → get (linked q m') d ≡ some n'
          → (((d == fresh) ≡ true) ⊎ ((d == fresh) ≡ false))
          → (((d == parent) ≡ true) ⊎ ((d == parent) ≡ false))
          → Siblings (linked q m') n'.first_child (grown fresh parent cs d)
      listed d n' e (inl h) k =
          let eq : d ≡ fresh = ground arith in
          let here = ap (λ a. get (linked q m') a) (sym eq) ∙ e in
          let made = added.new in let is : n' ≡ node = cc in rw (h, is) n.no_child
      listed d n' e (inr h) (inl k) =
          let eq : d ≡ parent = ground arith in
          rw (h, k) (whole n' (ap (λ a. get (linked q m') a) (sym eq) ∙ e))
      listed d n' e (inr h) (inr k) =
          rw (h, k)
            (listed-Relinked t (linked-Relinked q m m' at alike) parent first next d n' e h k
              (fresh_childless t fresh d n.unused))

  parent-kept : get (set_node fresh (some node) v) parent ≡ some p
  parent-kept =
      let ne = not_fresh t fresh parent p n.unused n.at in
      get-set_node fresh (some node) v parent n.fresh_nonnull
      ∙ ap (λ b. if b then some node else get v parent) ne
      ∙ n.at

  -- the chain of the other nodes, once the new node is written
  chain-kept :
      (x : ℕ) (xs : List ℕ)
      → Siblings v p.first_child (x ∷ xs)
      → has fresh (x ∷ xs) ≡ false
      → Siblings (set_node fresh (some node) v) p.first_child (x ∷ xs)
  chain-kept x xs chain out =
      Siblings-frame v (set_node fresh (some node) v) p.first_child (x ∷ xs) chain (λ a m h at.
        let ne = not_fresh t fresh a m n.unused at in
        (
          m,
          get-set_node fresh (some node) v a n.fresh_nonnull
              ∙ ap (λ b. if b then some node else get v a) ne
              ∙ at,
          refl,
        ))

  abbrev GrownBy : ℕ → Type 0
  GrownBy f =
      (v' : Vfs) × (add_child f v fresh parent node ≡ some v')
      × Grown v v' cs depth fresh parent node

  first-Grown : (f : ℕ) → cs parent ≡ [] → p.first_child ≡ 0 → GrownBy f
  unfolding add_child
  first-Grown f e first =
      let m' = record p { first_child = fresh } in
      let r = linked-Relinked parent p m' n.at refl in
      let added = linked-Added parent p m' n.at refl in
      let none_yet : (p.first_child == 0) ≡ true = ground arith in
      (
        linked parent m',
        rw (parent-kept, none_yet) refl,
        linked-Grown parent p m' n.at refl
            (λ ne. absurd (let self : (parent == parent) ≡ true = ground arith in cc)) (λ out. refl)
            (λ n' e'.
              let here = looked_here r in
              let is : n' ≡ m' = cc in rw (is, e) (refl, (node, added.new, n.no_sibling))),
      )

  last-Grown :
      (f x : ℕ) (xs : List ℕ)
      → cs parent ≡ x ∷ xs
      → Siblings v p.first_child (x ∷ xs)
      → length (x ∷ xs) ≤ f
      → GrownBy f
  unfolding add_child
  last-Grown f x xs e chain le =
      let q = last x xs in
      let last_in = has-last x xs in
      let in_parent : has q (cs parent) ≡ true = rw e last_in in
      let (m, at) = Siblings-live v p.first_child (x ∷ xs) q chain last_in in
      let m' = record m { next_sibling = fresh } in
      let r = linked-Relinked q m m' at refl in
      let added = linked-Added q m m' at refl in
      let out : has fresh (x ∷ xs) ≡ false =
        ap (has fresh) (sym e) ∙ fresh_childless t fresh parent n.unused in
      let distinct : Distinct (x ∷ xs) = rw e at (t.once parent) in
      let some_yet : (p.first_child == 0) ≡ false = rw chain.0 (nonnull x v chain.1.0 chain.1.1) in
      let written =
        get-set_node fresh (some node) v q n.fresh_nonnull
        ∙ ap (λ b. if b then some node else get v q) r.apart
        ∙ at in
      (
        linked q m',
        rw
            (
              parent-kept,
              some_yet,
              last_child-last f (set_node fresh (some node) v) p.first_child x xs
                  (chain-kept x xs chain out) le,
              written,
            )
            refl,
        linked-Grown q m m' at refl (λ ne. refl) (λ other. absurd (cc))
            (λ n' e'.
              let ne = child-ne t parent q in_parent in
              let far : (parent == q) ≡ false = ground (arith, ne) in
              let kept =
                looked_there r parent (not_fresh t fresh parent p n.unused n.at) far ∙ n.at in
              let is : n' ≡ p = cc in
              rw (is, e)
                (Siblings-snoc node p.first_child x xs r chain distinct out added.new
                  n.no_sibling)),
      )

  -- With a step for each child `add_child` succeeds, and the tree has grown by the node.
  pub add_child-Grown : (f : ℕ) → length (cs parent) ≤ f → GrownBy f
  add_child-Grown f le = pick (cs parent) refl (t.listed parent p n.at)
    where
      pick : (xs : List ℕ) → cs parent ≡ xs → Siblings v p.first_child (cs parent) → GrownBy f
      pick [] e chain = first-Grown f e (rw e at chain)
      pick (x ∷ xs) e chain = last-Grown f x xs e (rw e at chain) (omega (arith, le, ap length e))

-- A file system that `add_child` made of a tree is a tree.
pub add_child-IsTree :
    {v w : Vfs} {cs : ℕ → List ℕ} {depth : ℕ → ℕ} {fresh parent : ℕ} {node p : Node} (f : ℕ)
    → IsTree v cs depth
    → IsNewNode v fresh parent node p
    → length (cs parent) ≤ f
    → add_child f v fresh parent node ≡ some w
    → IsTree w (grown fresh parent cs) (grown_depth fresh parent depth)
add_child-IsTree f t n le e =
    let (v', made, grown_to) = add_child-Grown t n f le in
    let same = Option-some_inj made e in rw (← same) grown_to.tree
  where
    Option-some_inj : {o : Option Vfs} {a b : Vfs} → o ≡ some a → o ≡ some b → a ≡ b
    Option-some_inj h k = cc
