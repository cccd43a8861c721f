-- ===== src/Vfs/Tree/Grow.antt =====
-- New nodes in the tree of vfs.c: what `add_child` does to the children of a directory.
use keyhole_os.Prelude.{
  ℕ, ◌+◌, ◌<◌, ◌≡◌, ◌≢◌, refl, sym, ap, ◌∙◌, true, false, ◌||◌, none, some, ◌==◌, if◌then◌else◌,
  List, [], ◌∷◌, ◌++◌, Bool-cases, inl, inr, arith,
}
use keyhole_os.Vfs.{Node, Vfs, is_directory, get}
use keyhole_os.Vfs.Keeps.{is_dir, dir_of}
use keyhole_os.Vfs.Tree.{
  has, Distinct, Siblings, IsTree, unlinked, Alike, Alike-some, Alike-none, dir_of-Alike,
  child-live, root_live,
}

-- the children and the depths once `fresh` is the last child of `parent`
abbrev pub grown : (fresh parent : ℕ) → (ℕ → List ℕ) → ℕ → List ℕ
grown fresh parent cs d =
    if d == fresh then [] else if d == parent then cs parent ++ (fresh ∷ []) else cs d

abbrev pub grown_depth : (fresh parent : ℕ) → (ℕ → ℕ) → ℕ → ℕ
grown_depth fresh parent depth d = if d == fresh then depth parent + 1 else depth d

has-snoc : (a x : ℕ) (xs : List ℕ) → has a (xs ++ (x ∷ [])) ≡ (has a xs || a == x)
has-snoc a x [] = ground arith
has-snoc a x (y ∷ ys) = let rest = has-snoc a x ys in ground arith

Distinct-snoc : (xs : List ℕ) (x : ℕ) → Distinct xs → has x xs ≡ false → Distinct (xs ++ (x ∷ []))
Distinct-snoc [] x d h = (refl, tt)
Distinct-snoc (y ∷ ys) x d h =
    (rw (has-snoc y x ys) (ground (arith, h, d.0)), Distinct-snoc ys x d.1 (ground (arith, h)))

-- What a step that adds one node under a directory does to the nodes, but for their links.
pub record Added (v v' : Vfs) (fresh parent : ℕ) (node : Node) : Type 0 where
  pub unused : get v fresh ≡ none
  pub directory : Node
  pub at : get v parent ≡ some directory
  pub is_dir : is_directory directory ≡ true
  pub below : node.parent ≡ parent
  pub new : get v' fresh ≡ some node
  pub same : (a : ℕ) → (a == fresh) ≡ false → Alike (get v' a) (get v a)
  pub root_same : v'.root ≡ v.root

module _ {v : Vfs} {cs : ℕ → List ℕ} {depth : ℕ → ℕ} (t : IsTree v cs depth) where
  -- What is live is not the new node.
  pub not_fresh :
      (fresh a : ℕ) (n : Node) → get v fresh ≡ none → get v a ≡ some n → (a == fresh) ≡ false
  not_fresh fresh a n unused at = elim (Bool-cases (a == fresh)) [
    | inl e ↦
        let eq : a ≡ fresh = ground arith in
        let none_there : get v a ≡ none = rw eq unused in absurd (cc)
    | inr e ↦ e
  ]

  pub fresh_childless : (fresh d : ℕ) → get v fresh ≡ none → has fresh (cs d) ≡ false
  fresh_childless fresh d unused = elim (Bool-cases (has fresh (cs d))) [
    | inl h ↦ let live = (child-live t d fresh h).1 in absurd (let l = live.1 in cc)
    | inr h ↦ h
  ]

  -- The other nodes have the directory they had.
  grown-has :
      (fresh parent d c : ℕ)
      → get v fresh ≡ none
      → (c == fresh) ≡ false
      → has c (grown fresh parent cs d) ≡ has c (cs d)
  grown-has fresh parent d c unused ne =
      let none_below = t.empty fresh unused in
      elim (Bool-cases (d == fresh)) [
        | inl e ↦ let eq : d ≡ fresh = ground arith in rw (e, eq, none_below) refl
        | inr e ↦ elim (Bool-cases (d == parent)) [
          | inl h ↦
              let eq : d ≡ parent = ground arith in
              rw (e, h, has-snoc c fresh (cs parent), ne, eq) (ground arith)
          | inr h ↦ rw (e, h) refl
        ]
      ]

  module _ {v' : Vfs} {fresh parent : ℕ} {node : Node} (a : Added v v' fresh parent node) where
    old :
        (d : ℕ) (n' : Node)
        → get v' d ≡ some n'
        → (d == fresh) ≡ false
        → (n : Node) × (get v d ≡ some n) × (unlinked n' ≡ unlinked n)
    old d n' e ne = Alike-some (get v' d) (get v d) n' (a.same d ne) e

    is_new : (c : ℕ) (n' : Node) → get v' c ≡ some n' → (c == fresh) ≡ true → n' ≡ node
    is_new c n' e h =
        let eq : c ≡ fresh = ground arith in
        let here : get v' fresh ≡ some n' = rw (← eq) e in let made = a.new in cc

    not_parent : (parent == fresh) ≡ false
    not_parent = not_fresh fresh parent a.directory a.unused a.at

    grown-root : (v'.root == fresh) ≡ false
    grown-root = rw a.root_same (not_fresh fresh v.root (root_live t).0 a.unused (root_live t).1)

    grown-top : is_dir v' v'.root ≡ true
    grown-top =
        let top = t.top in
        let alike = a.same v'.root grown-root in
        let kept : dir_of (get v' v'.root) ≡ dir_of (get v v'.root) =
          dir_of-Alike (get v' v'.root) (get v v'.root) alike in
        kept ∙ ap (λ r. dir_of (get v r)) a.root_same ∙ top

    grown-top_up : (n' : Node) → get v' v'.root ≡ some n' → n'.parent ≡ v'.root
    grown-top_up n' e =
        let (n, at, alike) = old v'.root n' e grown-root in
        let was : get v v.root ≡ some n = ap (λ r. get v r) (sym a.root_same) ∙ at in
        ap (λ m. m.parent) alike ∙ t.top_up n was ∙ sym a.root_same

    grown-empty : (d : ℕ) → get v' d ≡ none → grown fresh parent cs d ≡ []
    grown-empty d e = elim (Bool-cases (d == fresh)) [
      | inl h ↦
          let eq : d ≡ fresh = ground arith in
          let here : get v' fresh ≡ none = rw (← eq) e in let made = a.new in absurd (cc)
      | inr h ↦
          let was = Alike-none (get v' d) (get v d) (a.same d h) e in
          let other : (d == parent) ≡ false =
            ground (arith, not_fresh d parent a.directory was a.at) in
          rw (h, other) (t.empty d was)
    ]

    grown-files :
        (d : ℕ) (n' : Node)
        → get v' d ≡ some n'
        → is_directory n' ≡ false
        → grown fresh parent cs d ≡ []
    grown-files d n' e f = elim (Bool-cases (d == fresh)) [
      | inl h ↦ rw h refl
      | inr h ↦
          let (n, at, alike) = old d n' e h in
          let file : is_directory n ≡ false = sym (ap is_directory alike) ∙ f in
          elim (Bool-cases (d == parent)) [
            | inl q ↦
                let eq : d ≡ parent = ground arith in
                let here : get v parent ≡ some n = rw (← eq) at in
                let there = a.at in
                let node_same : a.directory ≡ n = cc in
                let is = a.is_dir in absurd (let both = ap is_directory node_same in cc)
            | inr q ↦ rw (h, q) (t.files d n at file)
          ]
    ]

    grown-once : (d : ℕ) → Distinct (grown fresh parent cs d)
    grown-once d = elim (Bool-cases (d == fresh)) [
      | inl h ↦ rw h tt
      | inr h ↦ elim (Bool-cases (d == parent)) [
        | inl q ↦
            rw (h, q)
              (Distinct-snoc (cs parent) fresh (t.once parent)
                (fresh_childless fresh parent a.unused))
        | inr q ↦ rw (h, q) (t.once d)
      ]
    ]

    has_new : (d : ℕ) → has fresh (grown fresh parent cs d) ≡ (d == parent)
    has_new d = elim (Bool-cases (d == fresh)) [
      | inl h ↦
          let ne = not_parent in
          let other : (d == parent) ≡ false = ground (arith, ne) in rw (h, other) refl
      | inr h ↦ elim (Bool-cases (d == parent)) [
        | inl q ↦ rw (h, q, has-snoc fresh fresh (cs parent)) (ground arith)
        | inr q ↦ rw (h, q) (fresh_childless fresh d a.unused)
      ]
    ]

    grown-up :
        (d c : ℕ) (n' : Node)
        → has c (grown fresh parent cs d) ≡ true
        → get v' c ≡ some n'
        → n'.parent ≡ d
    grown-up d c n' h e = elim (Bool-cases (c == fresh)) [
      | inl q ↦
          let made = is_new c n' e q in
          let eq : c ≡ fresh = ground arith in
          let here = has_new d in
          let in_parent : (d == parent) ≡ true = sym here ∙ (rw eq at h) in
          ap (λ n. n.parent) made ∙ a.below ∙ ground arith
      | inr q ↦
          let (n, at, alike) = old c n' e q in
          ap (λ m. m.parent) alike ∙ t.up d c n (sym (grown-has fresh parent d c a.unused q) ∙ h) at
    ]

    grown-down :
        (c : ℕ) (n' : Node)
        → get v' c ≡ some n'
        → c ≢ v'.root
        → has c (grown fresh parent cs n'.parent) ≡ true
    grown-down c n' e nr = elim (Bool-cases (c == fresh)) [
      | inl q ↦
          let eq : c ≡ fresh = ground arith in
          let made : n'.parent ≡ parent = ap (λ n. n.parent) (is_new c n' e q) ∙ a.below in
          rw (eq, made, has_new parent) (ground arith)
      | inr q ↦
          let (n, at, alike) = old c n' e q in
          let same_parent : n'.parent ≡ n.parent = ap (λ m. m.parent) alike in
          rw (same_parent, grown-has fresh parent n.parent c a.unused q)
            (t.down c n at (λ r. nr (r ∙ sym a.root_same)))
    ]

    grown-deeper :
        (c : ℕ) (n' : Node)
        → get v' c ≡ some n'
        → c ≢ v'.root
        → grown_depth fresh parent depth n'.parent < grown_depth fresh parent depth c
    grown-deeper c n' e nr = elim (Bool-cases (c == fresh)) [
      | inl q ↦
          let made : n'.parent ≡ parent = ap (λ n. n.parent) (is_new c n' e q) ∙ a.below in
          rw (q, made, not_parent) (omega arith)
      | inr q ↦
          let (n, at, alike) = old c n' e q in
          let same_parent : n'.parent ≡ n.parent = ap (λ m. m.parent) alike in
          let was = λ (r : c ≡ v.root). nr (r ∙ sym a.root_same) in
          let live = (child-live t n.parent c (t.down c n at was)).0 in
          rw (q, same_parent, not_fresh fresh n.parent live.0 a.unused live.1) (t.deeper c n at was)
    ]

    grown-rootless : (d : ℕ) → has v'.root (grown fresh parent cs d) ≡ false
    grown-rootless d =
        grown-has fresh parent d v'.root a.unused grown-root
        ∙ ap (λ r. has r (cs d)) a.root_same
        ∙ t.rootless d

    -- The tree has grown by the node, if the links are those of the new lists.
    pub grown-IsTree :
        ((d : ℕ) (n' : Node)
          → get v' d ≡ some n'
          → Siblings v' n'.first_child (grown fresh parent cs d))
        → IsTree v' (grown fresh parent cs) (grown_depth fresh parent depth)
    grown-IsTree listed = record {
      top = grown-top;
      top_up = grown-top_up;
      listed = listed;
      empty = grown-empty;
      files = grown-files;
      once = grown-once;
      up = grown-up;
      down = grown-down;
      deeper = grown-deeper;
      rootless = grown-rootless;
    }
