-- ===== src/Vfs/Tree/Create.antt =====
-- `vfs_mkdir` and `vfs_touch` in the tree of vfs.c.
use keyhole_os.Prelude.{
  ℕ, ◌<◌, ◌≡◌, refl, sym, ap, ◌∙◌, Bool, true, false, ◌&&◌, not, Option, none, some, ◌==◌, List,
  length, Bool-cases, inl, inr, ◌⊎◌, arith,
}
use keyhole_os.Vfs.{NodeType, Node, Vfs, is_directory, get, locate, is_protected}
use keyhole_os.Vfs.Calls.{make_node, create}
use keyhole_os.Vfs.Keeps.{is_dir, dir_of}
use keyhole_os.Vfs.Tree.{IsTree, is_dir-live, nonnull as nonnull_of}
use keyhole_os.Vfs.Tree.Find.{IsEnough}
use keyhole_os.Vfs.Tree.Protect.{IsFree, is_protected_lem}
use keyhole_os.Vfs.Tree.Paths.{HasStart, locate-Located}
use keyhole_os.Vfs.Tree.Add.{IsNewNode, Grown, add_child-Grown}

abbrev pub new_node : List ℕ → NodeType → (parent : ℕ) → Node
new_node name type parent = record {
  name = name;
  type = type;
  content = none;
  data_size = 0;
  parent = parent;
  first_child = 0;
  next_sibling = 0;
}

-- sudo mode, or a place that is not protected
abbrev pub MayChange : Vfs → (ℕ → List ℕ) → ℕ → Type 0
MayChange v cs p = (v.sudo_mode ≡ true) ⊎ IsFree v cs p

abbrev pub MayNotChange : Vfs → (ℕ → List ℕ) → ℕ → Type 0
MayNotChange v cs p = (v.sudo_mode ≡ false) × ¬ IsFree v cs p

module _ {v : Vfs} {cs : ℕ → List ℕ} {depth : ℕ → ℕ} {f : ℕ} (t : IsTree v cs depth)
    (enough : IsEnough f v cs depth) where
  -- What the guard `is_protected(c) && !sudo_mode` decides.
  pub guard_lem :
      (c : ℕ) (n : Node)
      → get v c ≡ some n
      → (protected : Bool) × (is_protected f v c ≡ some protected)
        × ((((protected && not v.sudo_mode) ≡ true) × MayNotChange v cs c)
            ⊎ (((protected && not v.sudo_mode) ≡ false) × MayChange v cs c))
  guard_lem c n at = elim (is_protected_lem t f c n enough at) [
    | inl (e, free) ↦ (false, e, inr (refl, inr free))
    | inr (e, guarded) ↦ elim (Bool-cases v.sudo_mode) [
      | inl sudo ↦ (true, e, inr (rw sudo refl, inl sudo))
      | inr plain ↦ (true, e, inl (rw plain refl, (plain, guarded)))
    ]
  ]

  module _ (fresh : ℕ) (nonnull : (fresh == 0) ≡ false) (unused : get v fresh ≡ none) where
    abbrev pub Refused : ℕ → Type 0
    Refused parent = (is_dir v parent ≡ false) ⊎ MayNotChange v cs parent

    abbrev pub Made : Option (ℕ × Vfs) → Node → ℕ → Type 0
    Made o node parent =
        (v' : Vfs) × (o ≡ some (fresh, v'))
        × (is_dir v parent ≡ true)
        × MayChange v cs parent
        × Grown v v' cs depth fresh parent node

    make_node_lem :
        (type : NodeType) (parent : ℕ) (name : List ℕ)
        → is_dir v parent ≡ true
        → ((make_node f v fresh type parent name ≡ some (0, v)) × MayNotChange v cs parent)
          ⊎ Made (make_node f v fresh type parent name) (new_node name type parent) parent
    unfolding make_node
    make_node_lem type parent name dir =
        let (p, at) = is_dir-live v parent dir in
        let (protected, answer, cases) = guard_lem parent p at in
        let is : is_directory p ≡ true = sym (ap dir_of at) ∙ dir in
        elim cases [
          | inl (stop, may_not) ↦ inl (rw (answer, stop) refl, may_not)
          | inr (go_on, may) ↦
              let new_one : IsNewNode v fresh parent (new_node name type parent) p = record {
                fresh_nonnull = nonnull;
                unused = unused;
                at = at;
                is_dir = is;
                below = refl;
                no_child = refl;
                no_sibling = refl;
              } in
              let room = enough.room parent in
              let (v', added, grown) = add_child-Grown t new_one f (omega (arith, room)) in
              inr (v', rw (answer, go_on, added) refl, dir, may, grown)
        ]

    abbrev pub Created : NodeType → List ℕ → Type 0
    Created type path =
        (parent : ℕ) × (name : List ℕ) × (looked_up : Bool) × (locate f v path
          ≡ some (parent, name, looked_up))
        × (((create f v fresh type path ≡ some (0, v)) × Refused parent)
            ⊎ Made (create f v fresh type path) (new_node name type parent) parent)

    -- In a tree, with enough fuel and a path of less than 256 bytes that can start, the call ends, at the place and the name
    -- that `locate` takes from the path. Either the place is no directory, or it is protected and sudo mode is
    -- off: the answer is NULL and nothing is changed. Or else the new node is the last child of the place in
    -- the tree, and no other list of children, and nothing but links in the other nodes, is changed.
    pub create-Created :
        (type : NodeType) (path : List ℕ)
        → is_dir v v.current_dir ≡ true
        → HasStart v cs path
        → length path < 256
        → Created type path
    unfolding create
    create-Created type path here start lt =
        let (parent, name, looked_up, located, place) =
          locate-Located t enough here path start lt in
        (
          parent,
          name,
          looked_up,
          located,
          elim place [
            | inr (not_looked, dir) ↦ elim (make_node_lem type parent name dir) [
              | inl (e, may_not) ↦ inl (rw (located, not_looked) e, inr may_not)
              | inr (v', e, _, may, made) ↦ inr (v', rw (located, not_looked) e, dir, may, made)
            ]
            | inl (looked, found) ↦ elim found [
              | inl z ↦
                  let null : (parent == 0) ≡ true = ground (arith, z) in
                  let no_dir : is_dir v parent ≡ false = rw z refl in
                  inl (rw (located, looked, null) refl, inl no_dir)
              | inr (p, at) ↦
                  let nz = nonnull_of parent v p at in
                  elim (Bool-cases (is_directory p)) [
                    | inl d ↦
                        let same : create f v fresh type path
                            ≡ make_node f v fresh type parent name =
                          rw (located, looked, at, nz, d) refl in
                        elim (make_node_lem type parent name (ap dir_of at ∙ d)) [
                          | inl (e, may_not) ↦ inl (same ∙ e, inr may_not)
                          | inr (v', e, dir, may, made) ↦ inr (v', same ∙ e, dir, may, made)
                        ]
                    | inr nd ↦ inl (rw (located, looked, at, nz, nd) refl, inl (ap dir_of at ∙ nd))
                  ]
            ]
          ],
        )
