-- ===== src/Vfs/Tree/Paths.antt =====
-- `resolve_path` and `locate` in the tree of vfs.c: with enough fuel they end.
use keyhole_os.Prelude.{
  ℕ, zero, suc, ◌+◌, ◌<◌, ◌≤◌, ◌≡◌, ◌≢◌, refl, sym, ap, ◌∙◌, Bool, true, false, Option, none, some,
  ◌==◌, leb, List, [], ◌∷◌, ◌++◌, length, length-append, length-take, length-drop, take, drop,
  Bool-cases, inl, inr, ◌⊎◌, arith,
}
use keyhole_os.Vfs.{
  is_name, Node, Vfs, get, enter, walk, home_dir, resolve_path, locate, last_slash, skip_slash,
  same_text, home, root_name,
}
use keyhole_os.Vfs.Keeps.{is_dir}
use keyhole_os.Vfs.Tree.{nonnull, IsTree, child-live, root_live, is_dir-live}
use keyhole_os.Vfs.Tree.Find.{IsEnough, named, find_child-named, named-live}

abbrev pub starts_tilde : List ℕ → Bool
starts_tilde [] = false
starts_tilde (c ∷ cs) = c == b'~'

-- `~` can be followed: the path does not start with it, or there is `/home`.
abbrev pub HasStart : Vfs → (ℕ → List ℕ) → List ℕ → Type 0
HasStart v cs path = (starts_tilde path ≡ false) ⊎ (named v home (cs v.root) ≢ 0)

-- NULL or a live node
abbrev pub IsPlace : Vfs → ℕ → Type 0
IsPlace v p = (p ≡ 0) ⊎ ((n : Node) × (get v p ≡ some n))

abbrev pub Found : Vfs → Option ℕ → Type 0
Found v o = (p : ℕ) × (o ≡ some p) × IsPlace v p

module _ {v : Vfs} {cs : ℕ → List ℕ} {depth : ℕ → ℕ} {f : ℕ} (t : IsTree v cs depth)
    (enough : IsEnough f v cs depth) where
  parent_live : (c : ℕ) (n : Node) → get v c ≡ some n → (m : Node) × (get v n.parent ≡ some m)
  parent_live c n at = elim (Bool-cases (c == v.root)) [
    | inl r ↦
        let eq : c ≡ v.root = ground (arith, r) in
        let up = t.top_up n (ap (λ a. get v a) (sym eq) ∙ at) in rw up (root_live t)
    | inr r ↦ (child-live t n.parent c (t.down c n at (ground (arith, r)))).0
  ]

  enter-Found :
      (d : ℕ) (n : Node) (token : List ℕ)
      → get v d ≡ some n
      → length token < 256
      → (p : ℕ) × (enter f v d token ≡ some p)
        × (((p ≡ 0) × (is_name token ≡ true)) ⊎ ((m : Node) × (get v p ≡ some m)))
  unfolding enter
  enter-Found d n token at lt =
      let short : leb 256 (length token) ≡ false = ground (arith, lt) in
      elim (Bool-cases (leb (length token) 0)) [
        | inl e ↦ (d, rw (short, e) refl, inr (n, at))
        | inr e ↦ elim (Bool-cases (same_text token (b'.' ∷ b'.' ∷ []))) [
          | inl u ↦ (n.parent, rw (short, e, u, at) refl, inr (parent_live d n at))
          | inr u ↦ elim (Bool-cases (same_text token (b'.' ∷ []))) [
            | inl h ↦ (d, rw (short, e, u, h) refl, inr (n, at))
            | inr h ↦ (
              named v token (cs d),
              rw (short, e, u, h) (find_child-named t f d n token at (enough.room d)),
              elim (named-live t d token) [
                | inl z ↦ inl (z, rw (e, u, h) refl)
                | inr live ↦ inr live
              ],
            )
          ]
        ]
      ]

  walk-Found :
      (d : ℕ) (n : Node) (token path : List ℕ)
      → get v d ≡ some n
      → length token + length path < 256
      → Found v (walk f v d token path)
  unfolding walk
  walk-Found d n token [] at lt =
      let (p, entered, place) = enter-Found d n token at (omega (arith, lt)) in
      (p, entered, elim place [ inl (z, name) ↦ inl z | inr live ↦ inr live ])
  walk-Found d n token (c ∷ cs') at lt = elim (Bool-cases (c == b'/')) [
    | inl e ↦
        let (p, entered, place) = enter-Found d n token at (omega (arith, lt)) in
        elim place [
          | inl (z, name) ↦
              let null : (p == 0) ≡ true = ground (arith, z) in
              (0, rw (e, entered, null, name, walk) refl, inl refl)
          | inr (m, live) ↦
              let (q, walked, end) = walk-Found p m [] cs' live (omega (arith, lt)) in
              (q, rw (e, entered, nonnull p v m live, walk) walked, end)
        ]
    | inr e ↦
        let (q, walked, end) =
          walk-Found d n (token ++ (c ∷ [])) cs' at
            (omega (arith, lt, length-append token (c ∷ []))) in
        (q, rw (e, walk) walked, end)
  ]

  -- The places that a path can start from: the current directory, the root and what stands for `~`.
  module _ (here : is_dir v v.current_dir ≡ true) where
    here_live : (n : Node) × (get v v.current_dir ≡ some n)
    here_live = is_dir-live v v.current_dir here

    home_dir-live :
        named v home (cs v.root) ≢ 0
        → (p : ℕ) × (home_dir f v ≡ some p) × ((n : Node) × (get v p ≡ some n))
    unfolding home_dir
    home_dir-live has_home =
        let (top, top_at) = root_live t in
        let h = named v home (cs v.root) in
        let h_found = find_child-named t f v.root top home top_at (enough.room v.root) in
        elim (named-live t v.root home) [
          | inl z ↦ absurd (has_home z)
          | inr (m, h_at) ↦
              let r = named v root_name (cs h) in
              let r_found = find_child-named t f h m root_name h_at (enough.room h) in
              elim (Bool-cases (r == 0)) [
                | inl z ↦ (v.root, rw (h_found, r_found, z) refl, (top, top_at))
                | inr nz ↦ elim (named-live t h root_name) [
                  | inl z ↦ absurd (ground (arith, nz, z))
                  | inr live ↦ (r, rw (h_found, r_found, nz) refl, live)
                ]
              ]
        ]

    skip_slash-le : (cs' : List ℕ) → length (skip_slash cs') ≤ length cs'
    skip_slash-le [] = omega arith
    skip_slash-le (c ∷ cs') = ground arith

    -- With enough fuel `resolve_path` of a path of less than 256 bytes ends, at NULL or at a live node, if the
    -- current directory is one and `/home` exists where the path starts with `~`.
    pub resolve_path-Found :
        (path : List ℕ) → HasStart v cs path → length path < 256 → Found v (resolve_path f v path)
    unfolding resolve_path
    resolve_path-Found [] start lt = (v.current_dir, refl, inr here_live)
    resolve_path-Found (c ∷ cs') start lt = elim (Bool-cases (same_text (c ∷ cs') (b'.' ∷ []))) [
      | inl dot ↦ (v.current_dir, rw dot refl, inr here_live)
      | inr no_dot ↦ elim (Bool-cases (c == b'~')) [
        | inl tilde ↦ elim start [
          | inl plain ↦ absurd (cc)
          | inr has_home ↦
              let (p, started, live) = home_dir-live has_home in
              let (q, walked, end) =
                walk-Found p live.0 [] (skip_slash cs') live.1
                  (omega (arith, lt, skip_slash-le cs')) in
              (q, rw (no_dot, tilde, started) walked, end)
        ]
        | inr no_tilde ↦ elim (Bool-cases (c == b'/')) [
          | inl slash ↦
              let (q, walked, end) =
                walk-Found v.root (root_live t).0 [] cs' (root_live t).1 (omega (arith, lt)) in
              (q, rw (no_dot, no_tilde, slash) walked, end)
          | inr no_slash ↦
              let (q, walked, end) =
                walk-Found v.current_dir here_live.0 [] (c ∷ cs') here_live.1 (omega (arith, lt)) in
              (q, rw (no_dot, no_tilde, no_slash) walked, end)
        ]
      ]
    ]

    -- `locate` ends too: the parent was looked up, or it is the current directory or the root.
    abbrev pub Located : List ℕ → Type 0
    Located path =
        (parent : ℕ) × (name : List ℕ) × (looked_up : Bool) × (locate f v path
          ≡ some (parent, name, looked_up))
        × (((looked_up ≡ true) × IsPlace v parent)
            ⊎ ((looked_up ≡ false) × (is_dir v parent ≡ true)))

    pub locate-Located : (path : List ℕ) → HasStart v cs path → length path < 256 → Located path
    unfolding locate
    locate-Located path start lt = pick (last_slash 0 path none) refl
      where
        start_of : (i : ℕ) (path : List ℕ) → HasStart v cs path → HasStart v cs (take (suc i) path)
        start_of i [] start = start
        start_of i (c ∷ cs') start = start

        fits_all : (s : List ℕ) → length s ≤ length path → leb 256 (length s) ≡ false
        fits_all s le = ground (arith, lt, le)

        pick : (o : Option ℕ) → last_slash 0 path none ≡ o → Located path
        pick none e = (
          v.current_dir,
          path,
          false,
          rw (e, fits_all path (omega arith), locate) refl,
          inr (refl, here),
        )
        pick (some zero) e = (
          v.root,
          drop 1 path,
          false,
          rw (e, fits_all (drop 1 path) (omega (arith, length-drop 1 path)), locate) refl,
          inr (refl, t.top),
        )
        pick (some (suc i)) e =
            let a = fits_all (take (suc i) path) (omega (arith, length-take (suc i) path)) in
            let b =
              fits_all (drop (suc i + 1) path) (omega (arith, length-drop (suc i + 1) path)) in
            let (p, found, place) =
              resolve_path-Found (take (suc i) path) (start_of i path start)
                (omega (arith, lt, length-take (suc i) path)) in
            (p, drop (suc i + 1) path, true, rw (e, a, b, found, locate) refl, inl (refl, place))
