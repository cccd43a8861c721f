-- ===== src/Vfs/Move.antt =====
-- `vfs_mv`, `vfs_cp` and `vfs_cp_r` of vfs.c. A path that a copy is made for is built in 512 bytes.
-- `fresh` gives the address of a new node in a file system.
use keyhole_os.Prelude.{
  ℕ, zero, suc, Bool, false, ◌&&◌, not, Option, none, some, ◌==◌, leb, if◌then◌else◌, List, ◌∷◌,
  ◌++◌, length, take,
}
use keyhole_os.Prelude.Int.{ℤ, pos}
use keyhole_os.Vfs.{Vfs, Node, ◌>>=◌, is_directory, get, set_node, is_protected, resolve_path, fits}
use keyhole_os.Vfs.Calls.{minus, unlink, vfs_touch, vfs_mkdir}

-- the loop of `vfs_mv`, which unlinks the node
unfoldable pub mv_unlink : ℕ → Vfs → (node parent prev child : ℕ) → Option Vfs
mv_unlink zero v node parent prev child = none
mv_unlink (suc f) v node parent prev child =
    let search : Option Vfs = get v child >>= λ n.
    (let rest = mv_unlink f v node parent child n.next_sibling in
      if child == node then unlink v parent prev n.next_sibling else rest) in
    if child == 0 then some v else search

-- the node in front of the children of `parent`
unfoldable pub push_child : Vfs → (node parent : ℕ) → (Node → ℕ → Node) → Option Vfs
push_child v node parent change = do
  p ← get v parent
  n ← get v node
  let v' = set_node node (some (change n p.first_child)) v
  p' ← get v' parent
  some (set_node parent (some (record p' { first_child = node })) v')

-- `dest_node != NULL && dest_node->type == VFS_DIRECTORY`
abbrev pub names_directory : Vfs → ℕ → Option Bool
names_directory v node =
    let typed : Option Bool = get v node >>= λ n. some (is_directory n) in
    if node == 0 then some false else typed

-- the checks passed: the node is unlinked, and linked again in the directory or under the new name
unfoldable pub move_node :
    ℕ → Vfs → (node dest_node : ℕ) → (dest : List ℕ) → (into : Bool) → Option (ℤ × Vfs)
unfolding mv_unlink push_child
move_node f v node dest_node dest into = do
  n ← get v node
  let parent = n.parent
  p ← get v parent
  v' ← mv_unlink f v node parent 0 p.first_child
  let entered =
      push_child v' node dest_node
        (λ m first. record m { parent = dest_node; next_sibling = first })
  let renamed = fits dest >>= λ name.
      push_child v' node parent (λ m first. record m { name = name; next_sibling = first })
  v'' ← if into then entered else renamed
  some (pos 0, v'')

unfoldable pub vfs_mv : ℕ → Vfs → (src dest : List ℕ) → Option (ℤ × Vfs)
unfolding move_node
vfs_mv f v src dest = resolve_path f v src >>= λ node.
    (let allowed : Option (ℤ × Vfs) = is_protected f v node >>= λ protected.
    (let go_on : Option (ℤ × Vfs) = resolve_path f v dest >>= λ dest_node.
    names_directory v dest_node >>= λ into.
    (let move = move_node f v node dest_node dest into in
      let into_directory : Option (ℤ × Vfs) = is_protected f v dest_node >>= λ guarded.
      (if guarded && not v.sudo_mode then some (minus 4, v) else move) in
      if into then into_directory else move) in
      if protected && not v.sudo_mode then some (minus 3, v) else go_on) in
      if node == 0
      then some (minus 1, v)
      else if node == v.root
      then some (minus 3, v)
      else allowed)

-- `dest`, or `dest/name` where `dest` is a directory
unfoldable pub full_dest : ℕ → Vfs → (dest name : List ℕ) → Option (List ℕ)
full_dest f v dest name = resolve_path f v dest >>= λ dest_node.
    names_directory v dest_node >>= λ into.
    (let joined = dest ++ (b'/' ∷ name) in
      if into then (if leb 512 (length joined) then none else some joined) else some dest)

unfoldable pub vfs_cp : ℕ → (fresh : Vfs → ℕ) → Vfs → (src dest : List ℕ) → Option (ℤ × Vfs)
unfolding full_dest
vfs_cp f fresh v src dest = resolve_path f v src >>= λ node.
    (let copy_file : Option (ℤ × Vfs) = get v node >>= λ n.
    (let copy : Option (ℤ × Vfs) = full_dest f v dest n.name >>= λ target.
    vfs_touch f v (fresh v) target >>= λ (made, v').
    (let fill : Option (ℤ × Vfs) = get v' node >>= λ n'. get v' made >>= λ c.
    some (elim n'.content [
      | none ↦ (pos 0, v')
      | some text ↦
          let bytes = some (take n'.data_size text) in
          let filled = record c { content = bytes; data_size = n'.data_size } in
          (pos 0, set_node made (some filled) v')
    ]) in
      if made == 0 then some (minus 3, v') else fill) in
      if is_directory n then some (minus 2, v) else copy) in
      if node == 0 then some (minus 1, v) else copy_file)

-- `path/name` in its buffer
abbrev pub below : (path name : List ℕ) → Option (List ℕ)
below path name =
    let joined = path ++ (b'/' ∷ name) in if leb 512 (length joined) then none else some joined

-- `vfs_cp_r`, and its loop from `child` on
unfoldable mutual
  pub vfs_cp_r : ℕ → (fresh : Vfs → ℕ) → Vfs → (src dest : List ℕ) → Option (ℤ × Vfs)
  vfs_cp_r zero fresh v src dest = none
  vfs_cp_r (suc f) fresh v src dest = resolve_path f v src >>= λ node.
      (let tree : Option (ℤ × Vfs) = get v node >>= λ n.
      (let copy_tree : Option (ℤ × Vfs) = full_dest f v dest n.name >>= λ target.
      vfs_mkdir f v (fresh v) target >>= λ (new_dir, v').
      (let children : Option (ℤ × Vfs) = get v' node >>= λ n'.
      cp_children f fresh v' src target n'.first_child >>= λ v''. some (pos 0, v'') in
        if new_dir == 0 then some (minus 3, v') else children) in
        if is_directory n then copy_tree else vfs_cp f fresh v src dest) in
        if node == 0 then some (minus 1, v) else tree)

  pub cp_children : ℕ → (fresh : Vfs → ℕ) → Vfs → (src dest : List ℕ) → (child : ℕ) → Option Vfs
  cp_children zero fresh v src dest child = none
  cp_children (suc f) fresh v src dest child =
      let copy : Option Vfs = get v child >>= λ n. below src n.name >>= λ src_path.
      below dest n.name >>= λ dest_path.
      (let inside = vfs_cp_r f fresh v src_path dest_path in
        (if is_directory n then inside else vfs_cp f fresh v src_path dest_path) >>= λ (r, v').
        get v' child >>= λ n'. cp_children f fresh v' src dest n'.next_sibling) in
      if child == 0 then some v else copy
