-- ===== src/Vfs.antt =====
-- src/impl/x86_64/vfs.c, src/intf/vfs.h: the file system in memory, a tree of nodes linked by
-- `parent`, `first_child` and `next_sibling`.
-- The nodes are a function from addresses; `none` is an address that holds no node. A name and a
-- file's data are texts. `none` as the result of a call means that a loop's fuel ran out, that NULL
-- or a freed node was followed, or that a text did not fit its buffer of 256 bytes.
-- `fresh` is the address, not NULL, that `kmalloc` gives a new node.
pub mod Paths
pub mod Calls
pub mod Data
pub mod Keeps
pub mod Ready
pub mod Moved
pub mod Pwd
pub mod Init
pub mod Remove
pub mod Move
pub mod Sample
pub mod Tree
mod Tests
use keyhole_os.Prelude.{
  ℕ, zero, suc, ◌+◌, ◌-◌, Bool, true, false, ◌&&◌, ◌||◌, not, Option, none, some, ◌==◌, leb,
  if◌then◌else◌, List, [], ◌∷◌, ◌++◌, length, take, drop,
}
use keyhole_os.Prelude.Int.{ℤ, pos, negsuc}

pub data NodeType : Type 0 where
  file directory : NodeType

-- `struct Node`; no data is NULL
pub record Node : Type 0 where
  pub name : List ℕ
  pub type : NodeType
  pub content : Option (List ℕ)
  pub data_size : ℕ
  pub parent : ℕ
  pub first_child : ℕ
  pub next_sibling : ℕ

pub record Vfs : Type 0 where
  pub nodes : ℕ → Option Node
  pub root : ℕ
  pub current_dir : ℕ
  pub sudo_mode : Bool

infixl 5 ◌>>=◌
abbrev pub ◌>>=◌ : {A B : Type 0} → Option A → (A → Option B) → Option B
none >>= f = none
some a >>= f = f a

-- `strcmp(a, b) == 0`
unfoldable pub same_text : List ℕ → List ℕ → Bool
same_text [] [] = true
same_text [] (y ∷ ys) = false
same_text (x ∷ xs) [] = false
same_text (x ∷ xs) (y ∷ ys) = x == y && same_text xs ys

abbrev pub is_directory : Node → Bool
is_directory n = elim n.type [ file ↦ false | directory ↦ true ]

-- `*p`
abbrev pub get : Vfs → ℕ → Option Node
get v p = if p == 0 then none else v.nodes p

abbrev pub set_node : ℕ → Option Node → Vfs → Vfs
set_node p n v = record v { nodes = λ q. if q == p then n else v.nodes q }

-- the loop of `find_child` from `child` on
unfoldable pub find_sibling : ℕ → Vfs → ℕ → List ℕ → Option ℕ
unfolding same_text
find_sibling zero v child name = none
find_sibling (suc f) v child name =
    let hit = some child in
    let search : Option ℕ = get v child >>= λ n.
    (let rest = find_sibling f v n.next_sibling name in
      if same_text n.name name then hit else rest) in
    if child == 0 then some 0 else search

unfoldable pub find_child : ℕ → Vfs → ℕ → List ℕ → Option ℕ
unfolding find_sibling
find_child f v dir name = get v dir >>= λ d. find_sibling f v d.first_child name

abbrev pub home : List ℕ
home = b'h' ∷ b'o' ∷ b'm' ∷ b'e' ∷ []

abbrev pub root_name : List ℕ
root_name = b'r' ∷ b'o' ∷ b'o' ∷ b't' ∷ []

-- the loop of `is_protected`
unfoldable pub climb : ℕ → Vfs → (home_root curr : ℕ) → Option Bool
climb zero v home_root curr = none
climb (suc f) v home_root curr =
    let up : Option Bool = get v curr >>= λ n. climb f v home_root n.parent in
    if curr == v.root then some true else if curr == home_root then some false else up

unfoldable pub is_protected : ℕ → Vfs → ℕ → Option Bool
unfolding find_child climb
is_protected f v node = do
  h ← find_child f v v.root home
  if h == 0
      then some true
      else do r ← find_child f v h root_name; if r == 0 then some true else climb f v r node

-- What `resolve_path` does at the end of a token; 0 is its `return NULL`.
unfoldable pub enter : ℕ → Vfs → (node : ℕ) → (token : List ℕ) → Option ℕ
unfolding find_child same_text
enter f v node token =
    if leb 256 (length token)
    then none
    else if leb (length token) 0
    then some node
    else if same_text token (b'.' ∷ b'.' ∷ [])
    then (get v node >>= λ n. some n.parent)
    else if same_text token (b'.' ∷ [])
    then some node
    else find_child f v node token

-- a token that `find_child` is called with
abbrev pub is_name : List ℕ → Bool
is_name token =
    not (leb (length token) 0)
    && (not (same_text token (b'.' ∷ b'.' ∷ [])) && not (same_text token (b'.' ∷ [])))

-- The loop of `resolve_path` over the bytes left. It returns NULL at a name that is not found; after `..` it goes on
-- whatever `parent` holds.
unfoldable pub walk : ℕ → Vfs → (node : ℕ) → (token path : List ℕ) → Option ℕ
unfolding enter
walk f v node token [] = enter f v node token
walk f v node token (c ∷ cs) = elim (c == b'/') [
  | true ↦ enter f v node token >>= λ n.
      (let rest = walk f v n [] cs in if n == 0 && is_name token then some 0 else rest)
  | false ↦ walk f v node (token ++ (c ∷ [])) cs
]

abbrev pub skip_slash : List ℕ → List ℕ
skip_slash [] = []
skip_slash (c ∷ cs) = if c == b'/' then cs else c ∷ cs

-- where `~` leads
unfoldable pub home_dir : ℕ → Vfs → Option ℕ
unfolding find_child
home_dir f v = do
  h ← find_child f v v.root home
  n ← find_child f v h root_name
  some (if n == 0 then v.root else n)

unfoldable pub resolve_path : ℕ → Vfs → List ℕ → Option ℕ
unfolding walk home_dir
resolve_path f v [] = some v.current_dir
resolve_path f v (c ∷ cs) =
    if same_text (c ∷ cs) (b'.' ∷ [])
    then some v.current_dir
    else if c == b'~'
    then (home_dir f v >>= λ n. walk f v n [] (skip_slash cs))
    else if c == b'/'
    then walk f v v.root [] cs
    else walk f v v.current_dir [] (c ∷ cs)

-- The index of the last slash, and `none` for -1.
unfoldable pub last_slash : ℕ → List ℕ → Option ℕ → Option ℕ
last_slash i [] found = found
last_slash i (c ∷ cs) found = last_slash (i + 1) cs (if c == b'/' then some i else found)

-- a text copied to a buffer of 256 bytes
abbrev pub fits : List ℕ → Option (List ℕ)
fits t = if leb 256 (length t) then none else some t

-- The parent and the name that `vfs_mkdir`, `vfs_touch` and `vfs_rm` take from a path; the parent may
-- be NULL. The flag says that the parent was looked up.
unfoldable pub locate : ℕ → Vfs → List ℕ → Option (ℕ × List ℕ × Bool)
unfolding last_slash resolve_path
locate f v path = elim (last_slash 0 path none) [
  | none ↦ fits path >>= λ name. some (v.current_dir, name, false)
  | some zero ↦ fits (drop 1 path) >>= λ name. some (v.root, name, false)
  | some (suc i) ↦ do
    parent_path ← fits (take (suc i) path)
    name ← fits (drop (suc i + 1) path)
    parent ← resolve_path f v parent_path
    some (parent, name, true)
]
