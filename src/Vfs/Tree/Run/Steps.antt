-- ===== src/Vfs/Tree/Run/Steps.antt =====
-- Every call of `vfs_mkdir`, `vfs_touch`, `vfs_cd`, `vfs_rm`, `vfs_rmdir` and `vfs_write` ends, in a tree.
use keyhole_os.Prelude.{
  ℕ, suc, ◌<◌, ◌≡◌, ◌≢◌, refl, sym, ap, ◌∙◌, Bool, true, false, Option, none, some, ◌==◌, List,
  length, Bool-cases, inl, inr, ◌⊎◌, arith,
}
use keyhole_os.Vfs.{NodeType, file, directory, Node, Vfs, is_directory, get, ◌>>=◌}
use keyhole_os.Vfs.Keeps.{is_dir, dir_of}
use keyhole_os.Vfs.Ready.{Call, mkdir, touch, cd, rm, rmdir, write, mv, cp, run}
use keyhole_os.Vfs.Data.{SameTree-write, after_write}
use keyhole_os.Vfs.Calls.{
  create, vfs_mkdir, vfs_touch, vfs_cd, vfs_rm, vfs_rmdir, write_node, vfs_write,
}
use keyhole_os.Vfs.Tree.{IsTree, Siblings-frame, nonnull}
use keyhole_os.Vfs.Tree.Paths.{starts_tilde, resolve_path-Found}
use keyhole_os.Vfs.Tree.Create.{guard_lem, create-Created}
use keyhole_os.Vfs.Tree.Remove.{
  absent, guarded, directory as a_directory, removed, RmOutcome, RmdirOutcome, vfs_rm-RmOutcome,
  vfs_rmdir-RmdirOutcome, missing, top, busy, no_directory, full, guarded_dir, removed_dir,
}
use keyhole_os.Vfs.Tree.Run.{
  IsSettled, enough_of, IsSettled-spare, Grown-IsSettled, CutOff-IsSettled, SameTree-IsSettled,
}

-- the path of a call, if it is one of those that `is_plain_call` names
abbrev pub path_of : Call → List ℕ
path_of (mkdir fresh path) = path
path_of (touch fresh path) = path
path_of (cd path) = path
path_of (rm path) = path
path_of (rmdir path) = path
path_of (write fresh path text append) = path
path_of (mv src dest) = src
path_of (cp fresh src dest) = src

-- any call but `vfs_mv` and `vfs_cp`
abbrev pub is_plain_call : Call → Bool
is_plain_call (mv src dest) = false
is_plain_call (cp fresh src dest) = false
is_plain_call call = true

abbrev pub IsUnused : Vfs → ℕ → Type 0
IsUnused v a = ((a == 0) ≡ false) × (get v a ≡ none)

-- A new node gets an address that no live node has.
abbrev pub HasRoom : Vfs → Call → Type 0
HasRoom v (mkdir fresh path) = IsUnused v fresh
HasRoom v (touch fresh path) = IsUnused v fresh
HasRoom v (write fresh path text append) = IsUnused v fresh
HasRoom v (cp fresh src dest) = IsUnused v fresh
HasRoom v (mv src dest) = Unit {0}
HasRoom v (cd path) = Unit {0}
HasRoom v (rm path) = Unit {0}
HasRoom v (rmdir path) = Unit {0}

-- a path of less than 256 bytes that does not start with `~`
abbrev pub IsPlain : List ℕ → Type 0
IsPlain path = (starts_tilde path ≡ false) × (length path < 256)

abbrev pub state_of : {A : Type 0} → Option (A × Vfs) → Option Vfs
state_of o = o >>= λ r. some r.1

-- The current directory is no link.
moved :
    (v : Vfs) (c : ℕ) {cs : ℕ → List ℕ} {depth : ℕ → ℕ}
    → IsTree v cs depth
    → IsTree (record v { current_dir = c }) cs depth
moved v c {cs} t = record {
  top = t.top;
  top_up = t.top_up;
  listed = λ d n at.
      Siblings-frame v (record v { current_dir = c }) n.first_child (cs d) (t.listed d n at)
        (λ a m h there. (m, there, refl));
  empty = t.empty;
  files = t.files;
  once = t.once;
  up = t.up;
  down = t.down;
  deeper = t.deeper;
  rootless = t.rootless;
}

abbrev Ends : ℕ → ℕ → Option Vfs → Type 0
Ends f k o = (v' : Vfs) × (o ≡ some v') × IsSettled f k v'

module _ (f k : ℕ) (v : Vfs) (s : IsSettled f (suc k) v) where
  abbrev unchanged : {o : Option Vfs} → o ≡ some v → Ends f k o
  unchanged e = (v, e, IsSettled-spare f k v s)

  create-Ends :
      (type : NodeType) (path : List ℕ) (fresh : ℕ)
      → IsUnused v fresh
      → IsPlain path
      → (new : ℕ) × (v' : Vfs) × (create f v fresh type path ≡ some (new, v'))
        × IsSettled f k v'
        × ((new ≡ 0) ⊎ ((n : Node) × (get v' new ≡ some n)))
  create-Ends type path fresh (nz, unused) (plain, lt) =
      let (parent, name, looked_up, located, made) =
        create-Created s.tree (enough_of s) fresh nz unused type path s.here (inl plain) lt in
      elim made [
        | inl (e, refused) ↦ (0, v, e, IsSettled-spare f k v s, inl refl)
        | inr (v', e, dir, may, grown) ↦ (
          fresh,
          v',
          e,
          Grown-IsSettled f k fresh parent v v' _ s grown,
          inr (_, grown.added.new),
        )
      ]

  cd-Ends : (path : List ℕ) → IsPlain path → Ends f k (state_of (vfs_cd f v path))
  unfolding vfs_cd
  cd-Ends path (plain, lt) =
      let (c, found, place) = resolve_path-Found s.tree (enough_of s) s.here path (inl plain) lt in
      elim place [
        | inl z ↦
            unchanged (let null : (c == 0) ≡ true = ground (arith, z) in rw (found, null) refl)
        | inr (n, at) ↦ elim (Bool-cases (is_directory n)) [
          | inl d ↦
              let v' = record v { current_dir = c } in
              (
                v',
                rw (found, at, nonnull c v n at, d) refl,
                IsSettled-spare f k v' (record {
                  cs = s.cs;
                  depth = s.depth;
                  tree = moved v c s.tree;
                  here = ap dir_of at ∙ d;
                  room = s.room;
                  high = s.high;
                }),
              )
          | inr nd ↦ unchanged (rw (found, at, nonnull c v n at, nd) refl)
        ]
      ]

  rm-Ends : (path : List ℕ) → IsPlain path → Ends f k (state_of (vfs_rm f v path))
  rm-Ends path (plain, lt) =
      let (parent, name, looked_up, located, outcome) =
        vfs_rm-RmOutcome s.tree (enough_of s) path s.here (inl plain) lt in
      come_to _ outcome
    where
      come_to :
          (c : ℕ) {parent : ℕ}
          → RmOutcome v s.cs s.depth parent c (vfs_rm f v path)
          → Ends f k (state_of (vfs_rm f v path))
      come_to c (absent z e) = unchanged (rw e refl)
      come_to c (guarded nz m e) = unchanged (rw e refl)
      come_to c (a_directory d m e) = unchanged (rw e refl)
      come_to c {parent} (removed v' nd m e off) =
          let other : v.current_dir ≢ c =
            λ same. (let both = ap (is_dir v) same in let h = s.here in cc) in
          (
            v',
            rw e refl,
            IsSettled-spare f k v' (CutOff-IsSettled f (suc k) c parent v v' s other off),
          )

  rmdir-Ends : (path : List ℕ) → IsPlain path → Ends f k (state_of (vfs_rmdir f v path))
  rmdir-Ends path (plain, lt) =
      let (c, found, outcome) =
        vfs_rmdir-RmdirOutcome s.tree (enough_of s) path s.here (inl plain) lt in
      come_to c outcome
    where
      come_to :
          (c : ℕ)
          → RmdirOutcome v s.cs s.depth c (vfs_rmdir f v path)
          → Ends f k (state_of (vfs_rmdir f v path))
      come_to c (missing z e) = unchanged (rw e refl)
      come_to c (top nz r e) = unchanged (rw e refl)
      come_to c (busy nz nr b e) = unchanged (rw e refl)
      come_to c (no_directory t nd e) = unchanged (rw e refl)
      come_to c (full t d h e) = unchanged (rw e refl)
      come_to c (guarded_dir t d empty m e) = unchanged (rw e refl)
      come_to c (removed_dir n v' (nz, nr, nb) at d empty m e off) =
          let s' = CutOff-IsSettled f (suc k) c n.parent v v' s (λ same. nb (sym same)) off in
          (v', rw e refl, IsSettled-spare f k v' s')

-- A write to a live node needs no room.
write_node-Ends :
    (f k : ℕ) (v : Vfs) (node : ℕ) (n : Node) (text : List ℕ) (append : Bool)
    → IsSettled f k v
    → get v node ≡ some n
    → Ends f k (state_of (write_node f v node text append))
unfolding write_node
write_node-Ends f k v node n text append s at =
    let (protected, answer, cases) = guard_lem s.tree (enough_of s) node n at in
    elim (Bool-cases (is_directory n)) [
      | inl d ↦ (v, rw (at, d) refl, s)
      | inr nd ↦ elim cases [
        | inl (stop, may_not) ↦ (v, rw (at, nd, answer, stop) refl, s)
        | inr (go_on, may) ↦
            let there : v.nodes node ≡ some n = rw (nonnull node v n at) at at in
            let v' = after_write node append text n v in
            (
              v',
              rw (at, nd, answer, go_on) refl,
              SameTree-IsSettled f k v v'.nodes (SameTree-write node append text n v there) s,
            )
      ]
    ]

write-Ends :
    (f k : ℕ) (v : Vfs) (path text : List ℕ) (append : Bool) (fresh : ℕ)
    → IsSettled f (suc k) v
    → IsUnused v fresh
    → IsPlain path
    → Ends f k (state_of (vfs_write f v fresh path text append))
unfolding vfs_write vfs_touch
write-Ends f k v path text append fresh s unused (plain, lt) =
    let (c, found, place) = resolve_path-Found s.tree (enough_of s) s.here path (inl plain) lt in
    elim place [
      | inr (n, at) ↦
          let (v', e, s') = write_node-Ends f k v c n text append (IsSettled-spare f k v s) at in
          let same : vfs_write f v fresh path text append ≡ write_node f v c text append =
            rw (found, at, nonnull c v n at) refl in
          (v', ap state_of same ∙ e, s')
      | inl z ↦
          let null : (c == 0) ≡ true = ground (arith, z) in
          let (new, v', e, s', live) = create-Ends f k v s file path fresh unused (plain, lt) in
          elim live [
            | inl none_made ↦
                let none_new : (new == 0) ≡ true = ground (arith, none_made) in
                (v', rw (found, null, e, none_new) refl, s')
            | inr (n, at) ↦
                let (w, e', s'') = write_node-Ends f k v' new n text append s' at in
                let same : vfs_write f v fresh path text append ≡ write_node f v' new text append =
                  rw (found, null, e, at, nonnull new v' n at) refl in
                (w, ap state_of same ∙ e', s'')
          ]
    ]

-- Every such call ends, and leaves a tree.
pub run-IsSettled :
    (f k : ℕ) (v : Vfs) (call : Call)
    → IsSettled f (suc k) v
    → is_plain_call call ≡ true
    → HasRoom v call
    → IsPlain (path_of call)
    → (v' : Vfs) × (run f v call ≡ some v') × IsSettled f k v'
unfolding run vfs_mkdir vfs_touch
run-IsSettled f k v (mkdir fresh path) s c r p =
    let (new, v', e, s', live) = create-Ends f k v s directory path fresh r p in (v', rw e refl, s')
run-IsSettled f k v (touch fresh path) s c r p =
    let (new, v', e, s', live) = create-Ends f k v s file path fresh r p in (v', rw e refl, s')
run-IsSettled f k v (cd path) s c r p = cd-Ends f k v s path p
run-IsSettled f k v (rm path) s c r p = rm-Ends f k v s path p
run-IsSettled f k v (rmdir path) s c r p = rmdir-Ends f k v s path p
run-IsSettled f k v (write fresh path text append) s c r p =
    write-Ends f k v path text append fresh s r p
run-IsSettled f k v (mv src dest) s c r p = absurd (cc)
run-IsSettled f k v (cp fresh src dest) s c r p = absurd (cc)
