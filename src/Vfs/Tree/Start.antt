-- ===== src/Vfs/Tree/Start.antt =====
-- The tree that `init_filesystem` starts from: the root alone.
use keyhole_os.Prelude.{
  ℕ, ◌≡◌, refl, sym, ap, ◌∙◌, true, false, none, some, ◌==◌, List, [], Bool-cases, inl, inr, arith,
}
use keyhole_os.Vfs.{Node, get, is_directory}
use keyhole_os.Vfs.Init.{root_alone}
use keyhole_os.Vfs.Tree.{IsTree}

abbrev pub no_children : ℕ → List ℕ
no_children d = []

abbrev pub level : ℕ → ℕ
level d = 0

module _ (root : ℕ) (nonnull : (root == 0) ≡ false) where
  alone :
      (d : ℕ) (n : Node)
      → get (root_alone root) d ≡ some n
      → (d ≡ root) × (get (root_alone root) root ≡ some n)
  alone d n e = elim (Bool-cases (d == root)) [
    | inl h ↦
        let eq : d ≡ root = ground (arith, h) in
        (eq, ap (λ a. get (root_alone root) a) (sym eq) ∙ e)
    | inr h ↦ absurd (elsewhere d n h e)
  ]
    where
      elsewhere : (d : ℕ) (n : Node) → (d == root) ≡ false → get (root_alone root) d ≡ some n → ⊥
      elsewhere d n h e = elim (Bool-cases (d == 0)) [
        | inl z ↦ let nothing : get (root_alone root) d ≡ none = rw z refl in cc
        | inr z ↦
            let nothing : get (root_alone root) d ≡ none = unfold root_alone in rw (z, h) refl in cc
      ]

  root_node :
      (n : Node)
      → get (root_alone root) root ≡ some n
      → (n.parent ≡ root) × (n.first_child ≡ 0) × (is_directory n ≡ true)
  unfolding root_alone
  root_node n e =
      let self : (root == root) ≡ true = ground arith in
      let made = rw (nonnull, self) at e in
      (of_some (λ m. m.parent) made, of_some (λ m. m.first_child) made, of_some is_directory made)
    where
      of_some : {A : Type 0} {a b : Node} (g : Node → A) → some a ≡ some b → g b ≡ g a
      of_some g e = cc

  pub root_alone-IsTree : IsTree (root_alone root) no_children level
  unfolding root_alone
  root_alone-IsTree =
      let self : (root == root) ≡ true = ground arith in
      record {
        top = rw (nonnull, self) refl;
        top_up = λ n e. (root_node n e).0;
        listed = λ d n e. (root_node n (alone d n e).1).1;
        empty = λ d e. refl;
        files = λ d n e f. refl;
        once = λ d. tt;
        up = λ d c n h e. absurd (cc);
        down = λ c n e nr. absurd (nr (alone c n e).0);
        deeper = λ c n e nr. absurd (nr (alone c n e).0);
        rootless = λ d. refl;
      }
