-- ===== src/Vfs/Tree/Cut.antt =====
-- Nodes that leave the tree of vfs.c.
use keyhole_os.Prelude.{
  ℕ, ◌≡◌, ◌≢◌, refl, sym, ap, ◌∙◌, true, false, ◌||◌, none, some, ◌==◌, if◌then◌else◌, List, [],
  ◌∷◌, Bool-cases, inl, inr, arith,
}
use keyhole_os.Vfs.{Node, Vfs, is_directory, get}
use keyhole_os.Vfs.Keeps.{is_dir, dir_of}
use keyhole_os.Vfs.Tree.{
  has, Distinct, Siblings, IsTree, unlinked, Alike, Alike-some, Alike-none, dir_of-Alike,
}

abbrev pub remove : ℕ → List ℕ → List ℕ
remove c [] = []
remove c (x ∷ xs) = if c == x then xs else x ∷ remove c xs

-- the children once `gone` is none of `parent`'s any more
abbrev pub cut : (gone parent : ℕ) → (ℕ → List ℕ) → ℕ → List ℕ
cut gone parent cs d = if d == parent then remove gone (cs parent) else cs d

has-remove : (a c : ℕ) (xs : List ℕ) → (a == c) ≡ false → has a (remove c xs) ≡ has a xs
has-remove a c [] ne = refl
has-remove a c (x ∷ xs) ne = elim (Bool-cases (c == x)) [
  | inl e ↦ let far : (a == x) ≡ false = ground (arith, ne, e) in rw (e, far) refl
  | inr e ↦ rw e (ap (λ b. a == x || b) (has-remove a c xs ne))
]

has-remove_self : (c : ℕ) (xs : List ℕ) → Distinct xs → has c (remove c xs) ≡ false
has-remove_self c [] d = refl
has-remove_self c (x ∷ xs) d = elim (Bool-cases (c == x)) [
  | inl e ↦ let eq : c ≡ x = ground arith in rw e (ap (λ a. has a xs) eq ∙ d.0)
  | inr e ↦ rw (e, e) (has-remove_self c xs d.1)
]

has-remove_sub : (a c : ℕ) (xs : List ℕ) → has a xs ≡ false → has a (remove c xs) ≡ false
has-remove_sub a c [] h = refl
has-remove_sub a c (x ∷ xs) h = elim (Bool-cases (c == x)) [
  | inl e ↦ rw e (ground (arith, h))
  | inr e ↦
      let rest = has-remove_sub a c xs (ground (arith, h)) in
      let first : (a == x) ≡ false = ground (arith, h) in rw (e, first) rest
]

Distinct-remove : (c : ℕ) (xs : List ℕ) → Distinct xs → Distinct (remove c xs)
Distinct-remove c [] d = tt
Distinct-remove c (x ∷ xs) d = elim (Bool-cases (c == x)) [
  | inl e ↦ rw e d.1
  | inr e ↦ rw e (has-remove_sub x c xs d.0, Distinct-remove c xs d.1)
]

-- What a step that takes one node out does to the nodes, but for their links.
pub record Removed (v v' : Vfs) (cs : ℕ → List ℕ) (gone parent : ℕ) : Type 0 where
  pub child : has gone (cs parent) ≡ true
  pub childless : cs gone ≡ []
  pub freed : get v' gone ≡ none
  pub same : (a : ℕ) → (a == gone) ≡ false → Alike (get v' a) (get v a)
  pub root_same : v'.root ≡ v.root

module _ {v v' : Vfs} {cs : ℕ → List ℕ} {depth : ℕ → ℕ} {gone parent : ℕ} (t : IsTree v cs depth)
    (r : Removed v v' cs gone parent) where
  old :
      (d : ℕ) (n' : Node)
      → get v' d ≡ some n'
      → ((d == gone) ≡ false) × ((n : Node) × (get v d ≡ some n) × (unlinked n' ≡ unlinked n))
  old d n' e = elim (Bool-cases (d == gone)) [
    | inl h ↦
        let eq : d ≡ gone = ground (arith, h) in
        let here = ap (λ a. get v' a) (sym eq) ∙ e in let freed = r.freed in absurd (cc)
    | inr h ↦ (h, Alike-some (get v' d) (get v d) n' (r.same d h) e)
  ]

  cut-has : (d c : ℕ) → (c == gone) ≡ false → has c (cut gone parent cs d) ≡ has c (cs d)
  cut-has d c ne = elim (Bool-cases (d == parent)) [
    | inl e ↦
        let eq : d ≡ parent = ground (arith, e) in
        rw e (has-remove c gone (cs parent) ne ∙ ap (λ a. has c (cs a)) (sym eq))
    | inr e ↦ rw e refl
  ]

  root-stays : (v.root == gone) ≡ false
  root-stays = elim (Bool-cases (v.root == gone)) [
    | inl e ↦
        let eq : v.root ≡ gone = ground (arith, e) in
        let out = ap (λ a. has a (cs parent)) (sym eq) ∙ t.rootless parent in
        let child = r.child in absurd (cc)
    | inr e ↦ e
  ]

  root-stays' : (v'.root == gone) ≡ false
  root-stays' = rw r.root_same root-stays

  cut-top : is_dir v' v'.root ≡ true
  cut-top =
      dir_of-Alike (get v' v'.root) (get v v'.root) (r.same v'.root root-stays')
      ∙ ap (λ a. dir_of (get v a)) r.root_same
      ∙ t.top

  cut-top_up : (n' : Node) → get v' v'.root ≡ some n' → n'.parent ≡ v'.root
  cut-top_up n' e =
      let (_, (n, at, alike)) = old v'.root n' e in
      let was : get v v.root ≡ some n = ap (λ a. get v a) (sym r.root_same) ∙ at in
      ap (λ m. m.parent) alike ∙ t.top_up n was ∙ sym r.root_same

  -- A directory without children in the old tree has none in the new one.
  cut-childless : (d : ℕ) → cs d ≡ [] → cut gone parent cs d ≡ []
  cut-childless d e = elim (Bool-cases (d == parent)) [
    | inl h ↦
        let eq : d ≡ parent = ground (arith, h) in
        let no_child = ap cs (sym eq) ∙ e in
        let out : has gone (cs parent) ≡ false = ap (has gone) no_child in
        let child = r.child in absurd (cc)
    | inr h ↦ rw h e
  ]

  cut-empty : (d : ℕ) → get v' d ≡ none → cut gone parent cs d ≡ []
  cut-empty d e = elim (Bool-cases (d == gone)) [
    | inl h ↦ let eq : d ≡ gone = ground (arith, h) in cut-childless d (ap cs eq ∙ r.childless)
    | inr h ↦ cut-childless d (t.empty d (Alike-none (get v' d) (get v d) (r.same d h) e))
  ]

  cut-files :
      (d : ℕ) (n' : Node) → get v' d ≡ some n' → is_directory n' ≡ false → cut gone parent cs d ≡ []
  cut-files d n' e file =
      let (_, (n, at, alike)) = old d n' e in
      cut-childless d (t.files d n at (sym (ap is_directory alike) ∙ file))

  cut-once : (d : ℕ) → Distinct (cut gone parent cs d)
  cut-once d = elim (Bool-cases (d == parent)) [
    | inl h ↦ rw h (Distinct-remove gone (cs parent) (t.once parent))
    | inr h ↦ rw h (t.once d)
  ]

  cut-down :
      (c : ℕ) (n' : Node)
      → get v' c ≡ some n'
      → c ≢ v'.root
      → has c (cut gone parent cs n'.parent) ≡ true
  cut-down c n' e nr =
      let (ne, (n, at, alike)) = old c n' e in
      let same_parent : n'.parent ≡ n.parent = ap (λ m. m.parent) alike in
      ap (λ d. has c (cut gone parent cs d)) same_parent
      ∙ cut-has n.parent c ne
      ∙ t.down c n at (λ q. nr (q ∙ sym r.root_same))

  -- The tree is cut, if the links are those of the new lists.
  pub cut-IsTree :
      ((d : ℕ) (n' : Node) → get v' d ≡ some n' → Siblings v' n'.first_child (cut gone parent cs d))
      → IsTree v' (cut gone parent cs) depth
  cut-IsTree listed = record {
    top = cut-top;
    top_up = cut-top_up;
    listed = listed;
    empty = cut-empty;
    files = cut-files;
    once = cut-once;
    up = λ d c n' h e.
        (let (ne, (n, at, alike)) = old c n' e in
          ap (λ m. m.parent) alike ∙ t.up d c n (sym (cut-has d c ne) ∙ h) at);
    down = cut-down;
    deeper = λ c n' e nr.
        (let (ne, (n, at, alike)) = old c n' e in
          let same_parent : n'.parent ≡ n.parent = ap (λ m. m.parent) alike in
          rw same_parent (t.deeper c n at (λ q. nr (q ∙ sym r.root_same))));
    rootless =
        λ d. cut-has d v'.root root-stays' ∙ ap (λ a. has a (cs d)) r.root_same ∙ t.rootless d;
  }
