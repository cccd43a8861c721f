-- ===== src/Vfs/Tree/Unlink.antt =====
-- `unlink` in the tree of vfs.c: a child is taken out of the chain of its directory and freed.
use mathlib.Core.Option
use keyhole_os.Prelude.{
  ℕ, ◌≡◌, refl, sym, ap, ◌∙◌, true, false, ◌||◌, none, some, ◌==◌, if◌then◌else◌, List, [], ◌∷◌,
  ◌++◌, Bool-cases, inl, inr, ◌⊎◌, arith,
}
use keyhole_os.Vfs.{Node, Vfs, get, set_node}
use keyhole_os.Vfs.Calls.{unlink}
use keyhole_os.Vfs.Tree.{
  has, Distinct, Siblings, IsTree, unlinked, Alike, get-set_node, nonnull, Siblings-live, child-ne,
  parents_eq,
}
use keyhole_os.Vfs.Tree.Links.{
  Relinked, looked_here, looked_there, listed-Relinked, Siblings-Relinked, last, has-last,
}
use keyhole_os.Vfs.Tree.Cut.{remove, cut, Removed, cut-IsTree}

pub has-append : (a : ℕ) (xs ys : List ℕ) → has a (xs ++ ys) ≡ (has a xs || has a ys)
has-append a [] ys = refl
has-append a (x ∷ xs) ys = let rest = has-append a xs ys in ground arith

has-split : (c : ℕ) (pre post : List ℕ) → has c (pre ++ (c ∷ post)) ≡ true
has-split c [] post = ground arith
has-split c (x ∷ pre) post = let rest = has-split c pre post in ground arith

-- What stands in front of a child of the list differs from it, and so does what stands behind it.
Distinct-split :
    (c : ℕ) (pre post : List ℕ)
    → Distinct (pre ++ (c ∷ post))
    → (has c pre ≡ false) × (has c post ≡ false)
Distinct-split c [] post d = (refl, d.0)
Distinct-split c (x ∷ pre) post d =
    let (front, back) = Distinct-split c pre post d.1 in
    let out = d.0 in
    let parts = has-append x pre (c ∷ post) in
    let far : (c == x) ≡ false = ground arith in (rw far front, back)

remove-split :
    (c : ℕ) (pre post : List ℕ) → has c pre ≡ false → remove c (pre ++ (c ∷ post)) ≡ pre ++ post
remove-split c [] post h = let self : (c == c) ≡ true = ground arith in rw self refl
remove-split c (x ∷ pre) post h =
    let far : (c == x) ≡ false = ground (arith, h) in
    rw far (ap (λ l. x ∷ l) (remove-split c pre post (ground (arith, h))))

-- The chain goes past `c` once the node in front of it leads to the one behind it.
Siblings-past :
    {v v' : Vfs} {c : ℕ} {m m' n : Node} (p x : ℕ) (pre post : List ℕ)
    → Relinked v v' c (last x pre) m m'
    → m'.next_sibling ≡ n.next_sibling
    → get v c ≡ some n
    → Siblings v p ((x ∷ pre) ++ (c ∷ post))
    → Distinct ((x ∷ pre) ++ (c ∷ post))
    → Siblings v' p ((x ∷ pre) ++ post)
Siblings-past {v} {v'} {c} {m} {m'} {n} p x [] post r next at s d =
    let (n2, at2, rest) = s.1.2.1 in
    let is : n2 ≡ n = cc in
    let on : Siblings v n.next_sibling post = rw (← is) rest in
    let far : has x post ≡ false = let out = d.0 in ground arith in
    (
      s.0,
      (
        m',
        looked_here r,
        rw next (Siblings-Relinked r n.next_sibling post d.1.0 (λ h. absurd (cc)) on),
      ),
    )
Siblings-past {v} {v'} {c} {m} {m'} {n} p x (y ∷ pre) post r next at s d =
    let out = d.0 in
    let parts = has-append x (y ∷ pre) (c ∷ post) in
    let not_c : (x == c) ≡ false = ground arith in
    let not_in : has x (y ∷ pre) ≡ false = ground arith in
    let far : (x == last y pre) ≡ false = not_last not_in (Bool-cases (x == last y pre)) in
    (
      s.0,
      (
        s.1.0,
        looked_there r x not_c far ∙ s.1.1,
        Siblings-past s.1.0.next_sibling y pre post r next at s.1.2 d.1,
      ),
    )
  where
    not_last :
        has x (y ∷ pre) ≡ false
        → (((x == last y pre) ≡ true) ⊎ ((x == last y pre) ≡ false))
        → (x == last y pre) ≡ false
    not_last out (inl e) =
        let eq : x ≡ last y pre = ground (arith, e) in
        let in_rest = ap (λ a. has a (y ∷ pre)) eq ∙ has-last y pre in absurd (cc)
    not_last out (inr e) = e

-- What the removal of a child leaves: the tree without it.
pub record CutOff (v v' : Vfs) (cs : ℕ → List ℕ) (depth : ℕ → ℕ) (gone parent : ℕ) : Type 0 where
  pub removed : Removed v v' cs gone parent
  pub tree : IsTree v' (cut gone parent cs) depth
  pub here_same : v'.current_dir ≡ v.current_dir
  pub mode_same : v'.sudo_mode ≡ v.sudo_mode

-- the node in front of the rest of a list
abbrev pub prev_of : List ℕ → ℕ
prev_of [] = 0
prev_of (x ∷ xs) = last x xs

module _ {v : Vfs} {cs : ℕ → List ℕ} {depth : ℕ → ℕ} (t : IsTree v cs depth) {parent c : ℕ}
    {p n : Node} (pre post : List ℕ) (at : get v parent ≡ some p)
    (split : cs parent ≡ pre ++ (c ∷ post)) (there : get v c ≡ some n) (childless : cs c ≡ []) where
  is_child : has c (cs parent) ≡ true
  is_child = rw split (has-split c pre post)

  distinct : Distinct (pre ++ (c ∷ post))
  distinct = rw split at (t.once parent)

  chain : Siblings v p.first_child (pre ++ (c ∷ post))
  chain = rw split at (t.listed parent p at)

  -- the link of `q` written, and the child freed
  abbrev past : (q : ℕ) → Node → Vfs
  past q m' = set_node c none (set_node q (some m') v)

  past-Relinked :
      (q : ℕ) (m m' : Node)
      → get v q ≡ some m
      → unlinked m' ≡ unlinked m
      → (q == c) ≡ false
      → Relinked v (past q m') c q m m'
  past-Relinked q m m' at alike apart = record {
    at = at;
    alike = alike;
    apart = apart;
    looked = λ a ne.
        get-set_node c none (set_node q (some m') v) a (nonnull c v n there)
        ∙ ap (λ b. if b then none else get (set_node q (some m') v) a) ne
        ∙ get-set_node q (some m') v a (nonnull q v m at);
  }

  past-CutOff :
      (q : ℕ) (m m' : Node) (r : Relinked v (past q m') c q m m')
      → ((q == parent) ≡ false → m'.first_child ≡ m.first_child)
      → (has q (cs parent) ≡ false → m'.next_sibling ≡ m.next_sibling)
      → ((n' : Node)
          → get (past q m') parent ≡ some n'
          → Siblings (past q m') n'.first_child (pre ++ post))
      → CutOff v (past q m') cs depth c parent
  past-CutOff q m m' r first next whole = record {
    removed = removed;
    tree =
        cut-IsTree t removed
          (λ d n' e. listed d n' e (Bool-cases (d == c)) (Bool-cases (d == parent)));
    here_same = refl;
    mode_same = refl;
  }
    where
      same : (a : ℕ) → (a == c) ≡ false → Alike (get (past q m') a) (get v a)
      same a ne = elim (Bool-cases (a == q)) [
        | inl e ↦
            let eq : a ≡ q = ground (arith, e) in
            rw eq (
              ap (λ o. Option.map unlinked o) (looked_here r)
              ∙ ap some r.alike
              ∙ sym (ap (λ o. Option.map unlinked o) r.at))
        | inr e ↦ ap (λ o. Option.map unlinked o) (looked_there r a ne e)
      ]

      freed : get (past q m') c ≡ none
      freed =
          let self : (c == c) ≡ true = ground arith in
          get-set_node c none (set_node q (some m') v) c (nonnull c v n there)
          ∙ ap (λ b. if b then none else get (set_node q (some m') v) c) self

      removed : Removed v (past q m') cs c parent
      removed = record {
        child = is_child;
        childless = childless;
        freed = freed;
        same = same;
        root_same = refl;
      }

      listed :
          (d : ℕ) (n' : Node)
          → get (past q m') d ≡ some n'
          → (((d == c) ≡ true) ⊎ ((d == c) ≡ false))
          → (((d == parent) ≡ true) ⊎ ((d == parent) ≡ false))
          → Siblings (past q m') n'.first_child (cut c parent cs d)
      listed d n' e (inl h) k =
          let eq : d ≡ c = ground (arith, h) in
          let here = ap (λ a. get (past q m') a) (sym eq) ∙ e in absurd (cc (freed))
      listed d n' e (inr h) (inl k) =
          let eq : d ≡ parent = ground (arith, k) in
          let here = ap (λ a. get (past q m') a) (sym eq) ∙ e in
          let list = remove-split c pre post (Distinct-split c pre post distinct).0 in
          rw (k, split, list) (whole n' here)
      listed d n' e (inr h) (inr k) =
          rw k
            (listed-Relinked t r parent first next d n' e h k (only k (Bool-cases (has c (cs d)))))
        where
          only :
              (d == parent) ≡ false
              → ((has c (cs d) ≡ true) ⊎ (has c (cs d) ≡ false))
              → has c (cs d) ≡ false
          only k (inl h) = let one = parents_eq t d parent c h is_child in absurd (ground arith)
          only k (inr h) = h

-- `unlink` behind the node in front of the child, and the free, cut the child off.
pub unlink-CutOff :
    {v : Vfs} {cs : ℕ → List ℕ} {depth : ℕ → ℕ} (t : IsTree v cs depth) {parent c : ℕ} {p n : Node}
    (pre post : List ℕ)
    → get v parent ≡ some p
    → cs parent ≡ pre ++ (c ∷ post)
    → get v c ≡ some n
    → cs c ≡ []
    → (u : Vfs) × (unlink v parent (prev_of pre) n.next_sibling ≡ some u)
      × CutOff v (set_node c none u) cs depth c parent
unfolding unlink
unlink-CutOff {v} {cs} {depth} t {parent} {c} {p} {n} [] post at split there childless =
    let p' = record p { first_child = n.next_sibling } in
    let links = chain t [] post at split there childless in
    let once = distinct t [] post at split there childless in
    let child = is_child t [] post at split there childless in
    let apart : (parent == c) ≡ false =
      (let ne = child-ne t parent c child in ground (arith, ne)) in
    let r = past-Relinked t [] post at split there childless parent p p' at refl apart in
    let (n2, at2, rest) = links.1 in
    let is : n2 ≡ n = cc in
    let on : Siblings v n.next_sibling post = rw (← is) rest in
    let out : has parent post ≡ false = not_in child t split (Bool-cases (has parent post)) in
    (
      set_node parent (some p') v,
      rw at refl,
      past-CutOff t [] post at split there childless parent p p' r
          (λ ne. absurd (let self : (parent == parent) ≡ true = ground arith in cc)) (λ h. refl)
          (λ n' e.
            let here = looked_here r in
            let made : n' ≡ p' = cc in
            rw made (Siblings-Relinked r n.next_sibling post once.0 (λ h. refl) on)),
    )
  where
    not_in :
        has c (cs parent) ≡ true
        → IsTree v cs depth
        → cs parent ≡ c ∷ post
        → ((has parent post ≡ true) ⊎ (has parent post ≡ false))
        → has parent post ≡ false
    not_in child t e (inl h) =
        let in_list : has parent (cs parent) ≡ true = rw e (ground (arith, h)) in
        absurd (child-ne t parent parent in_list refl)
    not_in child t e (inr h) = h
unlink-CutOff {v} {cs} {depth} t {parent} {c} {p} {n} (x ∷ pre) post at split there childless =
    let q = last x pre in
    let links = chain t (x ∷ pre) post at split there childless in
    let once = distinct t (x ∷ pre) post at split there childless in
    let in_front = has-last x pre in
    let parts = has-append q (x ∷ pre) (c ∷ post) in
    let in_list : has q ((x ∷ pre) ++ (c ∷ post)) ≡ true =
      parts ∙ ap (λ b. b || has q (c ∷ post)) in_front in
    let (m, at_q) = Siblings-live v p.first_child ((x ∷ pre) ++ (c ∷ post)) q links in_list in
    let in_parent : has q (cs parent) ≡ true = ap (has q) split ∙ in_list in
    let m' = record m { next_sibling = n.next_sibling } in
    let (front, back) = Distinct-split c (x ∷ pre) post once in
    let apart : (q == c) ≡ false = differs q c (x ∷ pre) in_front front in
    let r = past-Relinked t (x ∷ pre) post at split there childless q m m' at_q refl apart in
    let some_prev = nonnull q v m at_q in
    (
      set_node q (some m') v,
      rw (at_q, some_prev) refl,
      past-CutOff t (x ∷ pre) post at split there childless q m m' r (λ ne. refl) (λ h. absurd (cc))
          (λ n' e.
            let no_child = child-ne t parent q in_parent in
            let far : (parent == q) ≡ false = ground (arith, no_child) in
            let not_c : (parent == c) ≡ false =
              (let ne = child-ne t parent c (is_child t (x ∷ pre) post at split there childless) in
                ground (arith, ne)) in
            let kept = looked_there r parent not_c far ∙ at in
            let is : n' ≡ p = cc in
            rw is (Siblings-past p.first_child x pre post r refl there links once)),
    )
  where
    differs : (q c : ℕ) (xs : List ℕ) → has q xs ≡ true → has c xs ≡ false → (q == c) ≡ false
    differs q c xs h out = elim (Bool-cases (q == c)) [
      | inl e ↦
          let eq : q ≡ c = ground (arith, e) in let same = ap (λ a. has a xs) eq in absurd (cc)
      | inr e ↦ e
    ]
