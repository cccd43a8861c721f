-- ===== src/Vfs/Tree/Remove.antt =====
-- `vfs_rm` and `vfs_rmdir` in the tree of vfs.c.
use mathlib.Core.List.{append_assoc}
use keyhole_os.Prelude.{
  ℕ, zero, suc, ◌<◌, ◌≡◌, ◌≢◌, refl, sym, ap, ◌∙◌, Bool, true, false, Option, none, some, ◌==◌,
  List, [], ◌∷◌, ◌++◌, length, Bool-cases, inl, inr, ◌⊎◌, arith,
}
use keyhole_os.Prelude.Int.{ℤ, pos}
use keyhole_os.Vfs.{Node, Vfs, is_directory, get, set_node, locate, resolve_path, same_text}
use keyhole_os.Vfs.Calls.{minus, rm_loop, vfs_rm, rmdir_loop, vfs_rmdir}
use keyhole_os.Vfs.Keeps.{is_dir, dir_of}
use keyhole_os.Vfs.Tree.{IsTree, Siblings, has, is_dir-live, child-live, nonnull}
use keyhole_os.Vfs.Tree.Find.{IsEnough, named}
use keyhole_os.Vfs.Tree.Paths.{HasStart, locate-Located, resolve_path-Found}
use keyhole_os.Vfs.Tree.Create.{MayChange, MayNotChange, guard_lem}
use keyhole_os.Vfs.Tree.Links.{last}
use keyhole_os.Vfs.Tree.Unlink.{CutOff, prev_of, unlink-CutOff}

prev_of-snoc : (xs : List ℕ) (x : ℕ) → prev_of (xs ++ (x ∷ [])) ≡ x
prev_of-snoc [] x = refl
prev_of-snoc (y ∷ ys) x = last-snoc y ys
  where
    last-snoc : (y : ℕ) (ys : List ℕ) → last y (ys ++ (x ∷ [])) ≡ x
    last-snoc y [] = refl
    last-snoc y (z ∷ zs) = last-snoc z zs

-- What `vfs_rm` may come to at the child `c` that has the name, or NULL.
pub data RmOutcome (v : Vfs) (cs : ℕ → List ℕ) (depth : ℕ → ℕ) (parent c : ℕ) (o : Option (ℤ × Vfs))
    : Type 0 where
  absent : c ≡ 0 → o ≡ some (minus 1, v) → RmOutcome v cs depth parent c o
  guarded : c ≢ 0 → MayNotChange v cs c → o ≡ some (minus 3, v) → RmOutcome v cs depth parent c o
  directory :
      is_dir v c ≡ true → MayChange v cs c → o ≡ some (minus 2, v) → RmOutcome v cs depth parent c o
  removed :
      (v' : Vfs)
      → is_dir v c ≡ false
      → MayChange v cs c
      → o ≡ some (pos 0, v')
      → CutOff v v' cs depth c parent
      → RmOutcome v cs depth parent c o

module _ {v : Vfs} {cs : ℕ → List ℕ} {depth : ℕ → ℕ} {f : ℕ} (t : IsTree v cs depth)
    (enough : IsEnough f v cs depth) where
  module _ (parent : ℕ) (p : Node) (at : get v parent ≡ some p) (name : List ℕ) where
    rm_loop_lem :
        (g : ℕ) (pre rest : List ℕ) (child : ℕ)
        → cs parent ≡ pre ++ rest
        → Siblings v child rest
        → length rest < g
        → RmOutcome v cs depth parent
            (named v name rest)
            (rm_loop g f v parent (prev_of pre) child name)
    unfolding rm_loop
    rm_loop_lem zero pre rest child split s lt = absurd (omega (arith, lt))
    rm_loop_lem (suc g) pre [] child split s lt = absent refl (rw s refl)
    rm_loop_lem (suc g) pre (x ∷ rest) child split s lt =
        let (n, there, later) = s.1 in
        let nz = nonnull x v n there in
        elim (Bool-cases (same_text n.name name)) [
          | inl hit ↦
              let (protected, answer, cases) = guard_lem t enough x n there in
              let spot : named v name (x ∷ rest) ≡ x = rw (there, hit) refl in
              rw spot (elim cases [
                | inl (stop, may_not) ↦
                    guarded (ground (arith, nz)) may_not
                      (rw (s.0, there, nz, hit, answer, stop) refl)
                | inr (go_on, may) ↦ elim (Bool-cases (is_directory n)) [
                  | inl d ↦
                      directory (ap dir_of there ∙ d) may
                        (rw (s.0, there, nz, hit, answer, go_on, d) refl)
                  | inr nd ↦
                      let (u, unlinked, off) =
                        unlink-CutOff t pre rest at split there (t.files x n there nd) in
                      removed (set_node x none u) (ap dir_of there ∙ nd) may
                        (rw (s.0, there, nz, hit, answer, go_on, nd, unlinked) refl) off
                ]
              ])
          | inr miss ↦
              let on : named v name (x ∷ rest) ≡ named v name rest = rw (there, miss) refl in
              let split' : cs parent ≡ (pre ++ (x ∷ [])) ++ rest =
                split ∙ sym (append_assoc pre (x ∷ []) rest) in
              let next =
                rm_loop_lem g (pre ++ (x ∷ [])) rest n.next_sibling split' later
                  (omega (arith, lt)) in
              let next' = rw (prev_of-snoc pre x) at next in rw (on, s.0, there, nz, miss) next'
        ]

    -- the loop of `vfs_rmdir` at a child without children
    rmdir_loop_lem :
        (g : ℕ) (pre rest : List ℕ) (node child : ℕ)
        → cs parent ≡ pre ++ rest
        → Siblings v child rest
        → length rest < g
        → has node rest ≡ true
        → cs node ≡ []
        → (v' : Vfs) × (rmdir_loop g v node parent (prev_of pre) child ≡ some (pos 0, v'))
          × CutOff v v' cs depth node parent
    unfolding rmdir_loop
    rmdir_loop_lem zero pre rest node child split s lt h e = absurd (omega (arith, lt))
    rmdir_loop_lem (suc g) pre [] node child split s lt h e = absurd (cc)
    rmdir_loop_lem (suc g) pre (x ∷ rest) node child split s lt h e =
        let (n, there, later) = s.1 in
        let nz = nonnull x v n there in
        elim (Bool-cases (x == node)) [
          | inl hit ↦
              let eq : x ≡ node = ground (arith, hit) in
              let (u, unlinked, off) = unlink-CutOff t pre rest at split there (ap cs eq ∙ e) in
              (set_node x none u, rw (s.0, there, nz, hit, unlinked) refl, rw (← eq) off)
          | inr miss ↦
              let split' : cs parent ≡ (pre ++ (x ∷ [])) ++ rest =
                split ∙ sym (append_assoc pre (x ∷ []) rest) in
              let (v', done, off) =
                rmdir_loop_lem g (pre ++ (x ∷ [])) rest node n.next_sibling split' later
                  (omega (arith, lt)) (ground (arith, h, miss)) e in
              (v', rw (s.0, there, nz, miss) (rw (prev_of-snoc pre x) at done), off)
        ]

  -- In a tree, with enough fuel and a path of less than 256 bytes that can start, `vfs_rm` ends. It looks for the name that
  -- `locate` takes from the path, among the children of the place that it takes: it answers -1 where there is
  -- none, -3 where the first one is protected and sudo mode is off, -2 where that is a directory, each with
  -- nothing changed; and else it frees that file and takes it out of the place's list, and changes no other list
  -- and nothing but links in the other nodes.
  pub vfs_rm-RmOutcome :
      (path : List ℕ)
      → is_dir v v.current_dir ≡ true
      → HasStart v cs path
      → length path < 256
      → (parent : ℕ) × (name : List ℕ) × (looked_up : Bool) × (locate f v path
          ≡ some (parent, name, looked_up))
        × RmOutcome v cs depth parent (named v name (cs parent)) (vfs_rm f v path)
  unfolding vfs_rm
  vfs_rm-RmOutcome path here start lt =
      let (parent, name, looked_up, located, place) = locate-Located t enough here path start lt in
      (
        parent,
        name,
        looked_up,
        located,
        elim place [
          | inr (not_looked, dir) ↦
              let (p, at) = is_dir-live v parent dir in
              rw (located, not_looked, at)
                (rm_loop_lem parent p at name f [] (cs parent) p.first_child refl
                  (t.listed parent p at) (enough.room parent))
          | inl (looked, found) ↦ elim found [
            | inl z ↦
                let null : (parent == 0) ≡ true = ground (arith, z) in
                let no_child : cs parent ≡ [] = ap cs z ∙ t.empty 0 refl in
                absent (ap (named v name) no_child) (rw (located, looked, null) refl)
            | inr (p, at) ↦
                let nz = nonnull parent v p at in
                rw (located, looked, at, nz)
                  (rm_loop_lem parent p at name f [] (cs parent) p.first_child refl
                    (t.listed parent p at) (enough.room parent))
          ]
        ],
      )

-- neither NULL nor the root nor the current directory
abbrev pub MayBeTried : Vfs → ℕ → Type 0
MayBeTried v c = (c ≢ 0) × (c ≢ v.root) × (c ≢ v.current_dir)

-- What `vfs_rmdir` comes to at the place `c` that its path leads to; no two cases meet.
pub data RmdirOutcome (v : Vfs) (cs : ℕ → List ℕ) (depth : ℕ → ℕ) (c : ℕ) (o : Option (ℤ × Vfs))
    : Type 0 where
  missing : c ≡ 0 → o ≡ some (minus 1, v) → RmdirOutcome v cs depth c o
  top : c ≢ 0 → c ≡ v.root → o ≡ some (minus 4, v) → RmdirOutcome v cs depth c o
  busy :
      c ≢ 0 → c ≢ v.root → c ≡ v.current_dir → o ≡ some (minus 5, v) → RmdirOutcome v cs depth c o
  no_directory :
      MayBeTried v c → is_dir v c ≡ false → o ≡ some (minus 2, v) → RmdirOutcome v cs depth c o
  full :
      MayBeTried v c
      → is_dir v c ≡ true
      → cs c ≢ []
      → o ≡ some (minus 3, v)
      → RmdirOutcome v cs depth c o
  guarded_dir :
      MayBeTried v c
      → is_dir v c ≡ true
      → cs c ≡ []
      → MayNotChange v cs c
      → o ≡ some (minus 4, v)
      → RmdirOutcome v cs depth c o
  removed_dir :
      (n : Node) (v' : Vfs)
      → MayBeTried v c
      → get v c ≡ some n
      → is_directory n ≡ true
      → cs c ≡ []
      → MayChange v cs c
      → o ≡ some (pos 0, v')
      → CutOff v v' cs depth c n.parent
      → RmdirOutcome v cs depth c o

first_child-null :
    (v : Vfs) (p : ℕ) (xs : List ℕ)
    → Siblings v p xs
    → (((p == 0) ≡ true) × (xs ≡ [])) ⊎ (((p == 0) ≡ false) × (xs ≢ []))
first_child-null v p [] s = inl (ground (arith, s), refl)
first_child-null v p (x ∷ xs) s =
    inr (rw s.0 (nonnull x v s.1.0 s.1.1), λ e. absurd (let l = ap length e in omega arith))

module _ {v : Vfs} {cs : ℕ → List ℕ} {depth : ℕ → ℕ} {f : ℕ} (t : IsTree v cs depth)
    (enough : IsEnough f v cs depth) where
  -- the part of `vfs_rmdir` behind the tests of the address
  rmdir_live :
      (path : List ℕ) (c : ℕ) (n : Node)
      → resolve_path f v path ≡ some c
      → (c == 0) ≡ false
      → (c == v.root) ≡ false
      → (c == v.current_dir) ≡ false
      → get v c ≡ some n
      → RmdirOutcome v cs depth c (vfs_rmdir f v path)
  unfolding vfs_rmdir
  rmdir_live path c n found nz nr nb at =
      let far : c ≢ v.root = ground (arith, nr) in
      let tried : MayBeTried v c = (ground (arith, nz), far, ground (arith, nb)) in
      elim (Bool-cases (is_directory n)) [
        | inr nd ↦ no_directory tried (ap dir_of at ∙ nd) (rw (found, at, nz, nr, nb, nd) refl)
        | inl d ↦ elim (first_child-null v n.first_child (cs c) (t.listed c n at)) [
          | inr (some_child, has_child) ↦
              full tried (ap dir_of at ∙ d) has_child
                (rw (found, at, nz, nr, nb, d, some_child) refl)
          | inl (no_child, empty) ↦
              let (protected, answer, cases) = guard_lem t enough c n at in
              elim cases [
                | inl (stop, may_not) ↦
                    guarded_dir tried (ap dir_of at ∙ d) empty may_not
                      (rw (found, at, nz, nr, nb, d, no_child, answer, stop) refl)
                | inr (go_on, may) ↦
                    let is_child = t.down c n at far in
                    let (p, up) = (child-live t n.parent c is_child).0 in
                    let (v', done, off) =
                      rmdir_loop_lem t enough n.parent p up [] f [] (cs n.parent) c p.first_child
                        refl (t.listed n.parent p up) (enough.room n.parent) is_child empty in
                    removed_dir n v' tried at d empty may
                      (rw (found, at, nz, nr, nb, d, no_child, answer, go_on, up, done) refl) off
              ]
        ]
      ]

  -- In a tree, with enough fuel and a path of less than 256 bytes that can start, `vfs_rmdir` ends: NULL, the root, the current
  -- directory, a file, a directory with children and a protected one are refused, in this order, with -1, -4, -5, -2,
  -- -3 and -4, each with nothing changed; and else the directory is freed and taken out
  -- of its parent's list, and no other list is changed and nothing but links in the other nodes.
  pub vfs_rmdir-RmdirOutcome :
      (path : List ℕ)
      → is_dir v v.current_dir ≡ true
      → HasStart v cs path
      → length path < 256
      → (c : ℕ) × (resolve_path f v path ≡ some c) × RmdirOutcome v cs depth c (vfs_rmdir f v path)
  unfolding vfs_rmdir
  vfs_rmdir-RmdirOutcome path here start lt =
      let (c, found, place) = resolve_path-Found t enough here path start lt in
      (
        c,
        found,
        elim (Bool-cases (c == 0)) [
          | inl z ↦ missing (ground (arith, z)) (rw (found, z) refl)
          | inr nz ↦ elim (Bool-cases (c == v.root)) [
            | inl r ↦ top (ground (arith, nz)) (ground (arith, r)) (rw (found, nz, r) refl)
            | inr nr ↦ elim (Bool-cases (c == v.current_dir)) [
              | inl b ↦
                  busy (ground (arith, nz)) (ground (arith, nr)) (ground (arith, b))
                    (rw (found, nz, nr, b) refl)
              | inr nb ↦ elim place [
                | inl z ↦ absurd (ground (arith, nz, z))
                | inr (n, at) ↦ rmdir_live path c n found nz nr nb at
              ]
            ]
          ]
        ],
      )
