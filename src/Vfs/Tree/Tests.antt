-- ===== src/Vfs/Tree/Tests.antt =====
-- The tree of `/home/root/notes`, built from the root alone, and the theorems about trees at it.
use keyhole_os.Prelude.{
  ℕ, ◌≡◌, refl, Bool, true, false, none, some, List, [], ◌∷◌, inr, ◌⊎◌, arith, bytes,
}
use keyhole_os.Vfs.{
  file, directory, Node, Vfs, get, set_node, home, root_name, find_child, same_text, is_protected,
  resolve_path, locate, ◌>>=◌,
}
use keyhole_os.Vfs.Init.{root_alone}
use keyhole_os.Vfs.Calls.{minus, add_child, vfs_rm, vfs_rmdir, vfs_cd, vfs_touch}
use keyhole_os.Vfs.Tree.Run.{IsSettled}
use keyhole_os.Vfs.Ready.{cd, touch, rm, run}
use keyhole_os.Vfs.Tree.Run.Reach.{Reaches, start, next, Reaches-goes_on}
use keyhole_os.Vfs.Tree.{IsTree}
use keyhole_os.Vfs.Tree.Start.{root_alone-IsTree, no_children, level}
use keyhole_os.Vfs.Tree.Grow.{grown, grown_depth}
use keyhole_os.Vfs.Tree.Add.{add_child-IsTree}
use keyhole_os.Vfs.Tree.Create.{new_node, Created, create-Created}
use keyhole_os.Vfs.Tree.Remove.{RmOutcome, RmdirOutcome, vfs_rm-RmOutcome, vfs_rmdir-RmdirOutcome}
use keyhole_os.Prelude.Int.{pos}
use keyhole_os.Vfs.Tree.Find.{IsEnough, named, find_child-named}
use keyhole_os.Vfs.Tree.Protect.{IsFree, is_protected_lem}
use keyhole_os.Vfs.Tree.Paths.{Found, resolve_path-Found}

-- a child written below a directory that had none
abbrev first_below : (fresh parent : ℕ) → (node p : Node) → Vfs → Vfs
first_below fresh parent node p v =
    set_node parent (some (record p { first_child = fresh })) (set_node fresh (some node) v)

abbrev notes_name : List ℕ
notes_name = b'n' ∷ b'o' ∷ b't' ∷ b'e' ∷ b's' ∷ []

abbrev top_node : Node
top_node = new_node (b'/' ∷ []) directory 0x100

abbrev home_node : Node
home_node = new_node home directory 0x100

abbrev root_node : Node
root_node = new_node root_name directory 0x200

abbrev notes_node : Node
notes_node = new_node notes_name file 0x300

abbrev v1 : Vfs
v1 = first_below 0x200 0x100 home_node top_node (root_alone 0x100)

abbrev v2 : Vfs
v2 = first_below 0x300 0x200 root_node home_node v1

abbrev v3 : Vfs
v3 = first_below 0x400 0x300 notes_node root_node v2

abbrev cs1 : ℕ → List ℕ
cs1 = grown 0x200 0x100 no_children

abbrev cs2 : ℕ → List ℕ
cs2 = grown 0x300 0x200 cs1

abbrev cs3 : ℕ → List ℕ
cs3 = grown 0x400 0x300 cs2

abbrev depth3 : ℕ → ℕ
depth3 = grown_depth 0x400 0x300 (grown_depth 0x300 0x200 (grown_depth 0x200 0x100 level))

t3 : IsTree v3 cs3 depth3
unfolding root_alone add_child
t3 =
    let t1 =
      add_child-IsTree {w = v1} {fresh = 0x200} {parent = 0x100} {node = home_node} {p = top_node} 5
        (root_alone-IsTree 0x100 refl)
        (record {
          fresh_nonnull = refl;
          unused = refl;
          at = refl;
          is_dir = refl;
          below = refl;
          no_child = refl;
          no_sibling = refl;
        })
        (omega arith) refl in
    let t2 =
      add_child-IsTree {w = v2} {fresh = 0x300} {parent = 0x200} {node = root_node} {p = home_node}
        5 t1
        (record {
          fresh_nonnull = refl;
          unused = refl;
          at = refl;
          is_dir = refl;
          below = refl;
          no_child = refl;
          no_sibling = refl;
        })
        (omega arith) refl in
    add_child-IsTree {w = v3} {fresh = 0x400} {parent = 0x300} {node = notes_node} {p = root_node} 5
      t2
      (record {
        fresh_nonnull = refl;
        unused = refl;
        at = refl;
        is_dir = refl;
        below = refl;
        no_child = refl;
        no_sibling = refl;
      })
      (omega arith) refl

enough : IsEnough 9 v3 cs3 depth3
enough = record { room = λ d. ground arith; high = λ c n at. ground arith }

find_child-named_example : find_child 2 v3 0x300 notes_name ≡ some (named v3 notes_name (cs3 0x300))
unfolding root_alone
find_child-named_example =
    find_child-named t3 2 0x300 (record root_node { first_child = 0x400 }) notes_name refl
      (omega arith)

found_notes : named v3 notes_name (cs3 0x300) ≡ 0x400
unfolding root_alone same_text
found_notes = refl

is_protected_lem_example :
    ((is_protected 9 v3 0x400 ≡ some false) × IsFree v3 cs3 0x400)
    ⊎ ((is_protected 9 v3 0x400 ≡ some true) × ¬ IsFree v3 cs3 0x400)
unfolding root_alone
is_protected_lem_example = is_protected_lem t3 9 0x400 notes_node enough refl

notes_open : is_protected 9 v3 0x400 ≡ some false
unfolding root_alone is_protected
notes_open = refl

abbrev notes_path : List ℕ
notes_path = bytes "~/notes"

resolve_path-Found_example : Found v3 (resolve_path 9 v3 notes_path)
unfolding root_alone same_text
resolve_path-Found_example =
    resolve_path-Found t3 enough refl notes_path (inr (omega arith)) (omega arith)

todo_unused : get v3 0x500 ≡ none
unfolding root_alone
todo_unused = refl

-- `touch ~/todo`
create-Created_example : Created t3 enough 0x500 refl todo_unused file (bytes "~/todo")
unfolding root_alone same_text
create-Created_example =
    create-Created t3 enough 0x500 refl todo_unused file (bytes "~/todo") refl (inr (omega arith))
      (omega arith)

-- `rm ~/notes`
vfs_rm-RmOutcome_example :
    (parent : ℕ) × (name : List ℕ) × (looked_up : Bool) × (locate 9 v3 notes_path
      ≡ some (parent, name, looked_up))
    × RmOutcome v3 cs3 depth3 parent (named v3 name (cs3 parent)) (vfs_rm 9 v3 notes_path)
unfolding root_alone same_text
vfs_rm-RmOutcome_example =
    vfs_rm-RmOutcome t3 enough notes_path refl (inr (omega arith)) (omega arith)

rm_answer : (vfs_rm 9 v3 notes_path >>= λ r. some r.0) ≡ some (pos 0)
unfolding root_alone same_text vfs_rm locate is_protected
rm_answer = refl

-- `rmdir ~`, which is not empty
vfs_rmdir-RmdirOutcome_example :
    (c : ℕ) × (resolve_path 9 v3 (bytes "~") ≡ some c)
    × RmdirOutcome v3 cs3 depth3 c (vfs_rmdir 9 v3 (bytes "~"))
unfolding root_alone same_text
vfs_rmdir-RmdirOutcome_example =
    vfs_rmdir-RmdirOutcome t3 enough (bytes "~") refl (inr (omega arith)) (omega arith)

rmdir_answer : (vfs_rmdir 9 v3 (bytes "~") >>= λ r. some r.0) ≡ some (minus 3)
unfolding root_alone same_text vfs_rmdir resolve_path
rmdir_answer = refl

settled : IsSettled 9 3 v3
unfolding root_alone
settled = record {
  cs = cs3;
  depth = depth3;
  tree = t3;
  here = refl;
  room = λ d. ground arith;
  high = λ c n at. ground arith;
}

abbrev in_root : Vfs
in_root = record v3 { current_dir = 0x300 }

abbrev with_todo : Vfs
with_todo =
    set_node 0x400 (some (record notes_node { next_sibling = 0x500 }))
      (set_node 0x500 (some (new_node (bytes "todo") file 0x300)) in_root)

-- `cd /home/root` and `touch todo`
two_calls : Reaches 9 v3 2 with_todo
unfolding run root_alone same_text vfs_cd vfs_touch resolve_path is_protected locate
two_calls =
    next (next start (cd (bytes "/home/root")) refl tt (refl, omega arith) refl)
      (touch 0x500 (bytes "todo")) refl (refl, refl) (refl, omega arith) refl

-- and then `rm notes`
Reaches-goes_on_example :
    IsSettled 9 1 with_todo
    × ((w' : Vfs) × (run 9 with_todo (rm (bytes "notes")) ≡ some w') × IsSettled 9 0 w')
Reaches-goes_on_example =
    Reaches-goes_on 9 2 v3 with_todo settled two_calls (rm (bytes "notes")) refl tt
      (refl, omega arith)
