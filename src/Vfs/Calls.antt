-- ===== src/Vfs/Calls.antt =====
-- The operations of vfs.c that the shell calls: `vfs_mkdir`, `vfs_touch`, `vfs_ls`, `vfs_cd`,
-- `vfs_cat`, `vfs_rm`, `vfs_rmdir` and `vfs_write`.
use keyhole_os.Prelude.{
  ℕ, zero, suc, ◌+◌, ◌-◌, Bool, ◌&&◌, not, Option, none, some, ◌==◌, if◌then◌else◌, List, [], ◌∷◌,
  ◌++◌, length, take,
}
use keyhole_os.Prelude.Int.{ℤ, pos, negsuc}
use keyhole_os.Vfs.{
  NodeType, file, directory, Node, Vfs, ◌>>=◌, same_text, is_directory, get, set_node, is_protected,
  resolve_path, locate,
}

-- the result -k of a call
abbrev pub minus : ℕ → ℤ
minus k = negsuc (k - 1)

-- `while (child->next_sibling != NULL)`
unfoldable pub last_child : ℕ → Vfs → ℕ → Option ℕ
last_child zero v child = none
last_child (suc f) v child = get v child >>= λ n.
    (let rest = last_child f v n.next_sibling in if n.next_sibling == 0 then some child else rest)

-- the new node behind the children of `parent`
unfoldable pub add_child : ℕ → Vfs → (fresh parent : ℕ) → Node → Option Vfs
unfolding last_child
add_child f v fresh parent node =
    let v' = set_node fresh (some node) v in
    get v' parent >>= λ p.
    (if p.first_child == 0
      then some (set_node parent (some (record p { first_child = fresh })) v')
      else (last_child f v' p.first_child >>= λ c.
          get v' c >>= λ n. some (set_node c (some (record n { next_sibling = fresh })) v')))

-- the second half of `vfs_mkdir` and `vfs_touch`, under the parent
unfoldable pub make_node :
    ℕ → Vfs → (fresh : ℕ) → NodeType → (parent : ℕ) → List ℕ → Option (ℕ × Vfs)
unfolding add_child
make_node f v fresh type parent name = is_protected f v parent >>= λ protected.
    (if protected && not v.sudo_mode
      then some (0, v)
      else (add_child f v fresh parent (record {
        name = name;
        type = type;
        content = none;
        data_size = 0;
        parent = parent;
        first_child = 0;
        next_sibling = 0;
      })
          >>= λ v'. some (fresh, v')))

-- `vfs_mkdir` and `vfs_touch`, which differ in the type alone; the address 0 is NULL
unfoldable pub create : ℕ → Vfs → (fresh : ℕ) → NodeType → List ℕ → Option (ℕ × Vfs)
unfolding make_node
create f v fresh type path = locate f v path >>= λ (parent, name, looked_up).
    (let make = make_node f v fresh type parent name in
      if looked_up
      then (if parent == 0
          then some (0, v)
          else (get v parent >>= λ p. (if is_directory p then make else some (0, v))))
      else make)

unfoldable pub vfs_mkdir : ℕ → Vfs → (fresh : ℕ) → List ℕ → Option (ℕ × Vfs)
unfolding create
vfs_mkdir f v fresh path = create f v fresh directory path

unfoldable pub vfs_touch : ℕ → Vfs → (fresh : ℕ) → List ℕ → Option (ℕ × Vfs)
unfolding create
vfs_touch f v fresh path = create f v fresh file path

-- `none` as the path is NULL
unfoldable pub vfs_ls : ℕ → Vfs → Option (List ℕ) → Option ℕ
vfs_ls f v path =
    let listed = λ (path : List ℕ). resolve_path f v path >>= λ dir.
    (if dir == 0
      then some 0
      else get v dir >>= λ d. some (if is_directory d then d.first_child else 0)) in
    let here : Option ℕ = get v v.current_dir >>= λ d. some d.first_child in
    elim path [ none ↦ here | some [] ↦ here | some (c ∷ cs) ↦ listed (c ∷ cs) ]

unfoldable pub vfs_cd : ℕ → Vfs → List ℕ → Option (ℤ × Vfs)
vfs_cd f v name = resolve_path f v name >>= λ node.
    (if node == 0
      then some (minus 1, v)
      else get v node >>= λ n.
          some (if is_directory n then (pos 0, record v { current_dir = node }) else (minus 2, v)))

-- The result, and `*out` if it is written.
unfoldable pub vfs_cat : ℕ → Vfs → List ℕ → Option (ℤ × Option (Option (List ℕ)))
vfs_cat f v path = resolve_path f v path >>= λ node.
    (if node == 0
      then some (minus 1, none)
      else get v node >>= λ n.
          some (if is_directory n then (minus 2, none) else (pos 0, some n.content)))

-- `parent->first_child = next`, or `prev->next_sibling = next` where there is a `prev`
unfoldable pub unlink : Vfs → (parent prev next : ℕ) → Option Vfs
unlink v parent prev next =
    if prev == 0
    then (get v parent >>= λ p. some (set_node parent (some (record p { first_child = next })) v))
    else (get v prev >>= λ p. some (set_node prev (some (record p { next_sibling = next })) v))

-- the loop of `vfs_rm`
unfoldable pub rm_loop : ℕ → ℕ → Vfs → (parent prev child : ℕ) → List ℕ → Option (ℤ × Vfs)
unfolding unlink
rm_loop zero depth v parent prev child name = none
rm_loop (suc f) depth v parent prev child name =
    let found = λ (n : Node). is_protected depth v child >>= λ protected.
    (if protected && not v.sudo_mode
      then some (minus 3, v)
      else if is_directory n
      then some (minus 2, v)
      else unlink v parent prev n.next_sibling >>= λ v'. some (pos 0, set_node child none v')) in
    let search : Option (ℤ × Vfs) = get v child >>= λ n.
    (let rest = rm_loop f depth v parent child n.next_sibling name in
      if same_text n.name name then found n else rest) in
    if child == 0 then some (minus 1, v) else search

unfoldable pub vfs_rm : ℕ → Vfs → List ℕ → Option (ℤ × Vfs)
unfolding rm_loop
vfs_rm f v path = locate f v path >>= λ (parent, name, looked_up).
    (if looked_up && parent == 0
      then some (minus 1, v)
      else get v parent >>= λ p. rm_loop f f v parent 0 p.first_child name)

-- the loop of `vfs_rmdir`
unfoldable pub rmdir_loop : ℕ → Vfs → (node parent prev child : ℕ) → Option (ℤ × Vfs)
unfolding unlink
rmdir_loop zero v node parent prev child = none
rmdir_loop (suc f) v node parent prev child =
    let search : Option (ℤ × Vfs) = get v child >>= λ n.
    (let rest = rmdir_loop f v node parent child n.next_sibling in
      if child == node
      then (unlink v parent prev n.next_sibling >>= λ v'. some (pos 0, set_node child none v'))
      else rest) in
    if child == 0 then some (minus 1, v) else search

unfoldable pub vfs_rmdir : ℕ → Vfs → List ℕ → Option (ℤ × Vfs)
unfolding rmdir_loop
vfs_rmdir f v path = resolve_path f v path >>= λ node.
    (let remove = λ (n : Node). is_protected f v node >>= λ protected.
    (if protected && not v.sudo_mode
      then some (minus 4, v)
      else get v n.parent >>= λ p. rmdir_loop f v node n.parent 0 p.first_child) in
      if node == 0
      then some (minus 1, v)
      else if node == v.root
      then some (minus 4, v)
      else if node == v.current_dir
      then some (minus 5, v)
      else get v node >>= λ n.
          (if not (is_directory n)
            then some (minus 2, v)
            else if n.first_child == 0
            then remove n
            else some (minus 3, v)))

-- the node with its new data: the text alone, or behind the old one
unfoldable pub written : Bool → List ℕ → Node → Node
written append text n =
    let fresh_data = record n { content = some text; data_size = length text } in
    let more = λ (old : List ℕ). record n {
      content = some (take n.data_size old ++ text);
      data_size = n.data_size + length text;
    } in
    elim n.content [ none ↦ fresh_data | some old ↦ if append then more old else fresh_data ]

-- `vfs_write` to the node that the path or the new file gave
unfoldable pub write_node : ℕ → Vfs → (node : ℕ) → List ℕ → Bool → Option (ℤ × Vfs)
unfolding written
write_node f v node text append = get v node >>= λ n.
    (if is_directory n
      then some (minus 2, v)
      else is_protected f v node >>= λ protected. some (
          if protected && not v.sudo_mode
          then (minus 3, v)
          else (pos 0, set_node node (some (written append text n)) v)))

unfoldable pub vfs_write : ℕ → Vfs → (fresh : ℕ) → (path text : List ℕ) → Bool → Option (ℤ × Vfs)
unfolding write_node
vfs_write f v fresh path text append = resolve_path f v path >>= λ node.
    (let made : Option (ℤ × Vfs) = vfs_touch f v fresh path >>= λ (new, v').
    (if new == 0 then some (minus 1, v') else write_node f v' new text append) in
      if node == 0 then made else write_node f v node text append)
