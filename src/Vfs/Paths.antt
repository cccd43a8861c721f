-- ===== src/Vfs/Paths.antt =====
-- Path resolution in vfs.c reads the links and the names of the nodes, and nothing else of them.
use mathlib.Core.Option
use keyhole_os.Prelude.{
  ◌&&◌, ℕ, zero, suc, ◌≡◌, refl, sym, ap, ◌∙◌, true, false, Option, none, some, ◌==◌, leb,
  if◌then◌else◌, List, [], ◌∷◌, ◌++◌, length, Bool-cases, inl, inr,
}
use keyhole_os.Vfs.{
  is_name, Node, Vfs, ◌>>=◌, same_text, get, find_sibling, find_child, climb, is_protected, enter,
  walk, home_dir, resolve_path, home, root_name, skip_slash,
}

-- the node without its data
abbrev pub bare : Node → Node
bare n = record n { content = none; data_size = 0 }

-- `nodes'` are the nodes of `v`, but for the data of its files.
abbrev pub SameTree : Vfs → (ℕ → Option Node) → Type 0
SameTree v nodes' = (p : ℕ) → Option.map bare (nodes' p) ≡ Option.map bare (v.nodes p)

-- A step that does not read the data goes on alike.
bind_bare :
    {A : Type 0} (o o' : Option Node) (k k' : Node → Option A)
    → Option.map bare o' ≡ Option.map bare o
    → ((n : Node) → k' n ≡ k n)
    → ((n : Node) → k n ≡ k (bare n))
    → (o' >>= k') ≡ (o >>= k)
bind_bare none none k k' e h b = refl
bind_bare none (some n) k k' e h b = cc
bind_bare (some n) none k k' e h b = cc
bind_bare (some n) (some n') k k' e h b =
    let same : bare n' ≡ bare n = cc in h n' ∙ b n' ∙ ap k same ∙ sym (b n)

-- Two steps of which the first goes alike, and the second after it.
bind_cong :
    {A B : Type 0} {o o' : Option A} {k k' : A → Option B}
    → o' ≡ o
    → ((a : A) → k' a ≡ k a)
    → (o' >>= k') ≡ (o >>= k)
bind_cong e h = λ i. e i >>= λ a. h a i

module _ (v : Vfs) (nodes' : ℕ → Option Node) (t : SameTree v nodes') where
  abbrev v' : Vfs
  v' = record v { nodes = nodes' }

  bare-get : (p : ℕ) → Option.map bare (get v' p) ≡ Option.map bare (get v p)
  bare-get p = elim (Bool-cases (p == 0)) [ inl z ↦ rw z refl | inr nz ↦ rw nz (t p) ]

  find_sibling-SameTree :
      (f child : ℕ) (name : List ℕ) → find_sibling f v' child name ≡ find_sibling f v child name
  unfolding find_sibling
  find_sibling-SameTree zero child name = refl
  find_sibling-SameTree (suc f) child name =
      let e =
        bind_bare (get v child) (get v' child)
          (λ n. if same_text n.name name then some child else find_sibling f v n.next_sibling name)
          (λ n. if same_text n.name name then some child else find_sibling f v' n.next_sibling name)
          (bare-get child)
          (λ n i.
            if same_text n.name name
            then some child
            else find_sibling-SameTree f n.next_sibling name i)
          (λ n. refl) in
      λ i. if child == 0 then some 0 else e i

  pub find_child-SameTree :
      (f dir : ℕ) (name : List ℕ) → find_child f v' dir name ≡ find_child f v dir name
  unfolding find_child
  find_child-SameTree f dir name =
      bind_bare (get v dir) (get v' dir) (λ d. find_sibling f v d.first_child name)
        (λ d. find_sibling f v' d.first_child name) (bare-get dir)
        (λ n. find_sibling-SameTree f n.first_child name) (λ n. refl)

  climb-SameTree : (f home_root curr : ℕ) → climb f v' home_root curr ≡ climb f v home_root curr
  unfolding climb
  climb-SameTree zero home_root curr = refl
  climb-SameTree (suc f) home_root curr =
      let e =
        bind_bare (get v curr) (get v' curr) (λ n. climb f v home_root n.parent)
          (λ n. climb f v' home_root n.parent) (bare-get curr)
          (λ n. climb-SameTree f home_root n.parent) (λ n. refl) in
      λ i. if curr == v.root then some true else if curr == home_root then some false else e i

  pub is_protected-SameTree : (f node : ℕ) → is_protected f v' node ≡ is_protected f v node
  unfolding is_protected
  is_protected-SameTree f node = bind_cong (find_child-SameTree f v.root home) λ h i.
      if h == 0
      then some true
      else bind_cong (find_child-SameTree f h root_name)
          (λ r j. if r == 0 then some true else climb-SameTree f r node j) i

  enter-SameTree : (f node : ℕ) (token : List ℕ) → enter f v' node token ≡ enter f v node token
  unfolding enter
  enter-SameTree f node token =
      let up =
        bind_bare (get v node) (get v' node) (λ n. some n.parent) (λ n. some n.parent)
          (bare-get node) (λ n. refl) (λ n. refl) in
      λ i.
        if leb 256 (length token)
        then none
        else if leb (length token) 0
        then some node
        else if same_text token (b'.' ∷ b'.' ∷ [])
        then up i
        else if same_text token (b'.' ∷ [])
        then some node
        else find_child-SameTree f node token i

  walk-SameTree :
      (f node : ℕ) (token path : List ℕ) → walk f v' node token path ≡ walk f v node token path
  unfolding walk
  walk-SameTree f node token [] = enter-SameTree f node token
  walk-SameTree f node token (c ∷ cs) =
      let next = walk-SameTree f node (token ++ (c ∷ [])) cs in
      let down =
        bind_cong (enter-SameTree f node token)
          (λ n i. if n == 0 && is_name token then some 0 else walk-SameTree f n [] cs i) in
      λ i. elim (c == b'/') [ true ↦ down i | false ↦ next i ]

  home_dir-SameTree : (f : ℕ) → home_dir f v' ≡ home_dir f v
  unfolding home_dir
  home_dir-SameTree f =
      bind_cong (find_child-SameTree f v.root home)
        λ h. bind_cong (find_child-SameTree f h root_name) λ n. refl

  pub resolve_path-SameTree :
      (f : ℕ) (path : List ℕ) → resolve_path f v' path ≡ resolve_path f v path
  unfolding resolve_path
  resolve_path-SameTree f [] = refl
  resolve_path-SameTree f (c ∷ cs) =
      let tilde = bind_cong (home_dir-SameTree f) (λ n. walk-SameTree f n [] (skip_slash cs)) in
      λ i.
        if same_text (c ∷ cs) (b'.' ∷ [])
        then some v.current_dir
        else if c == b'~'
        then tilde i
        else if c == b'/'
        then walk-SameTree f v.root [] cs i
        else walk-SameTree f v.current_dir [] (c ∷ cs) i
