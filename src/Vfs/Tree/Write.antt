-- ===== src/Vfs/Tree/Write.antt =====
-- `vfs_write` in the tree of vfs.c: the links stay, whatever is written.
use mathlib.Core.Option
use keyhole_os.Prelude.{
  ℕ, ◌≡◌, refl, sym, ap, ◌∙◌, Option, none, some, ◌==◌, List, Bool-cases, inl, inr,
}
use keyhole_os.Vfs.{Node, Vfs, is_directory, get}
use keyhole_os.Vfs.Paths.{bare, SameTree}
use keyhole_os.Vfs.Keeps.{is_dir, dir_of}
use keyhole_os.Vfs.Tree.{IsTree, Siblings-frame, has}

bare-some :
    (o' o : Option Node) (n' : Node)
    → Option.map bare o' ≡ Option.map bare o
    → o' ≡ some n'
    → (n : Node) × (o ≡ some n) × (bare n' ≡ bare n)
bare-some none o n' a e = absurd (cc)
bare-some (some m') none n' a e = absurd (cc)
bare-some (some m') (some n) n' a e = let same : m' ≡ n' = cc in (n, refl, ap bare (sym same) ∙ cc)

bare-none : (o' o : Option Node) → Option.map bare o' ≡ Option.map bare o → o' ≡ none → o ≡ none
bare-none none none a e = refl
bare-none none (some n) a e = absurd (cc)
bare-none (some n) o a e = absurd (cc)

bare-dir_of : (o' o : Option Node) → Option.map bare o' ≡ Option.map bare o → dir_of o' ≡ dir_of o
bare-dir_of none none e = refl
bare-dir_of none (some n) e = absurd (cc)
bare-dir_of (some n') none e = absurd (cc)
bare-dir_of (some n') (some n) e = let u : bare n' ≡ bare n = cc in ap is_directory u

module _ (v : Vfs) (nodes' : ℕ → Option Node) (same : SameTree v nodes') where
  abbrev v' : Vfs
  v' = record v { nodes = nodes' }

  same-get : (p : ℕ) → Option.map bare (get v' p) ≡ Option.map bare (get v p)
  same-get p = elim (Bool-cases (p == 0)) [ inl z ↦ rw z refl | inr nz ↦ rw nz (same p) ]

  pub SameTree-live :
      (c : ℕ) (n' : Node)
      → get v' c ≡ some n'
      → (n : Node) × (get v c ≡ some n) × (bare n' ≡ bare n)
  SameTree-live c n' e = bare-some (get v' c) (get v c) n' (same-get c) e

  pub SameTree-is_dir : (p : ℕ) → is_dir v' p ≡ is_dir v p
  SameTree-is_dir p = bare-dir_of (get v' p) (get v p) (same-get p)

  -- The tree is the same where the nodes are, but for the data of the files.
  pub SameTree-IsTree : {cs : ℕ → List ℕ} {depth : ℕ → ℕ} → IsTree v cs depth → IsTree v' cs depth
  SameTree-IsTree {cs} {depth} t = record {
    top = SameTree-is_dir v.root ∙ t.top;
    top_up = λ n' e.
        (let (n, at, alike) = SameTree-live v.root n' e in
          ap (λ m. m.parent) alike ∙ t.top_up n at);
    listed = λ d n' e.
        (let (n, at, alike) = SameTree-live d n' e in
          let first : n'.first_child ≡ n.first_child = ap (λ m. m.first_child) alike in
          rw first (
            Siblings-frame v v' n.first_child (cs d) (t.listed d n at) (λ a m h there.
              let (m', there', alike') =
                bare-some (get v a) (get v' a) m (sym (same-get a)) there in
              (m', there', sym (ap (λ k. k.next_sibling) alike')))));
    empty = λ d e. t.empty d (bare-none (get v' d) (get v d) (same-get d) e);
    files = λ d n' e f.
        (let (n, at, alike) = SameTree-live d n' e in
          t.files d n at (sym (ap is_directory alike) ∙ f));
    once = t.once;
    up = λ d c n' h e.
        (let (n, at, alike) = SameTree-live c n' e in ap (λ m. m.parent) alike ∙ t.up d c n h at);
    down = λ c n' e nr.
        (let (n, at, alike) = SameTree-live c n' e in
          ap (λ d. has c (cs d)) (ap (λ m. m.parent) alike) ∙ t.down c n at nr);
    deeper = λ c n' e nr.
        (let (n, at, alike) = SameTree-live c n' e in
          let up : n'.parent ≡ n.parent = ap (λ m. m.parent) alike in rw up (t.deeper c n at nr));
    rootless = t.rootless;
  }
