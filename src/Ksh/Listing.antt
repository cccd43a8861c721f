-- ===== src/Ksh/Listing.antt =====
-- `ls` of `execute`, and `ls_recursive` of src/impl/x86_64/vfs.c.
use keyhole_os.Prelude.{
  ℕ, zero, suc, ◌/◌, ◌%◌, ◌^◌, ◌==◌, Bool, true, false, ◌&&◌, ◌||◌, not, Option, none, some,
  if◌then◌else◌, List, [], ◌∷◌, bytes,
}
use keyhole_os.Console
use keyhole_os.Console.{Screen}
use keyhole_os.Vfs.{Vfs, Node, same_text, ◌>>=◌, get, is_directory, resolve_path}
use keyhole_os.Vfs.Calls.{vfs_ls}
use keyhole_os.Vfs.Move.{below}
use keyhole_os.Ksh.{Kernel}
use keyhole_os.Ksh.Print.{say, say_about, blue, black}

-- `child->name[0] != '.' || show_all`
abbrev is_shown : Bool → Node → Bool
is_shown show_all n = show_all || not (starts_dot n.name)
  where
    starts_dot : List ℕ → Bool
    starts_dot [] = false
    starts_dot (c ∷ cs) = c == b'.'

-- the loop of `ls` from `child` on
unfoldable pub list_children :
    ℕ → Vfs → (show_all : Bool) → (saved child : ℕ) → Screen → Option Screen
list_children zero v show_all saved child s = none
list_children (suc f) v show_all saved child s =
    let show : Option Screen = get v child >>= λ n.
    (let marked = if is_directory n then Console.print_set_color blue black s else s in
      let named = Console.print_char b' ' (
        Console.print_set_color (saved % 2 ^ 4) (saved / 2 ^ 4)
          (Console.print_str n.name marked)) in
      list_children f v show_all saved n.next_sibling
        (if is_shown show_all n then named else marked)) in
    if child == 0 then some s else show

-- the first loop of `ls_recursive`
unfoldable pub list_names : ℕ → Vfs → (show_all : Bool) → (saved child : ℕ) → Screen → Option Screen
list_names zero v show_all saved child s = none
list_names (suc f) v show_all saved child s =
    let show : Option Screen = get v child >>= λ n.
    (let marked = if is_directory n then Console.print_set_color blue black s else s in
      let named =
        Console.print_char b' ' (record (Console.print_str n.name marked) { color = saved }) in
      list_names f v show_all saved n.next_sibling (if is_shown show_all n then named else s)) in
    if child == 0 then some s else show

-- `ls_recursive`, and its second loop from `child` on
unfoldable mutual
  pub ls_recursive :
      ℕ → Vfs → (show_all : Bool) → (dir : ℕ) → (path : List ℕ) → Screen → Option Screen
  ls_recursive zero v show_all dir path s = none
  ls_recursive (suc f) v show_all dir path s = get v dir >>= λ d.
      list_names f v show_all s.color d.first_child
        (Console.print_str (bytes ":\n") (Console.print_str path s))
      >>= λ s'. list_below f v show_all d.first_child path (Console.print_str (bytes "\n\n") s')

  pub list_below :
      ℕ → Vfs → (show_all : Bool) → (child : ℕ) → (path : List ℕ) → Screen → Option Screen
  list_below zero v show_all child path s = none
  list_below (suc f) v show_all child path s =
      let show : Option Screen = get v child >>= λ n.
      (let inside : Option Screen =
          below path n.name >>= λ subpath. ls_recursive f v show_all child subpath s in
        (if is_directory n && is_shown show_all n then inside else some s) >>= λ s'.
        list_below f v show_all n.next_sibling path s') in
      if child == 0 then some s else show

-- `show_all` and `path`: the last word that is not `-a`
unfoldable pub ls_options :
    (args : List (List ℕ)) → (show_all : Bool) → Option (List ℕ) → Bool × Option (List ℕ)
ls_options [] show_all path = (show_all, path)
ls_options (t ∷ ts) show_all path =
    let is_all = same_text t (bytes "-a") in
    ls_options ts (if is_all then true else show_all) (if is_all then path else some t)

abbrev any_recursive : (args : List (List ℕ)) → Bool
any_recursive [] = false
any_recursive (t ∷ ts) = same_text t (bytes "-R") || any_recursive ts

-- The path is replaced by `.` whenever it differs from one of two texts, so always. It is no NULL, since
-- `-R` is taken for a path itself.
unfoldable pub list_all : ℕ → (show_all : Bool) → (path : List ℕ) → Kernel → Option Kernel
unfolding ls_recursive
list_all f show_all path k =
    let from =
      if not (same_text path []) || not (same_text path (bytes " ")) then bytes "." else path in
    resolve_path f k.vfs from >>= λ dir.
    (let walk : Option Kernel = get k.vfs dir >>= λ d.
    (let listed : Option Kernel =
        ls_recursive f k.vfs show_all dir from k.screen >>= λ s. some (record k { screen = s }) in
      if is_directory d then listed else some (say "ls: not a directory\n" k)) in
      if dir == 0 then some (say "ls: not a directory\n" k) else walk)

-- Without `-R`. `args` are not empty where `first` is a word.
unfoldable pub list_one :
    ℕ → (show_all : Bool) → (path first : Option (List ℕ)) → Kernel → Option Kernel
unfolding list_children
list_one f show_all path first k = vfs_ls f k.vfs path >>= λ child.
    (let list : Option Kernel =
        list_children f k.vfs show_all k.screen.color child k.screen >>= λ s.
        some (record k { screen = record (Console.print_char 10 s) { color = k.screen.color } }) in
      elim first [
        | none ↦ list
        | some word ↦
            let missing : Option Kernel = resolve_path f k.vfs word >>= λ node. some (
              if node == 0
              then say_about "ls: cannot access '" word "': No such file or directory\n" k
              else k) in
            if child == 0 then missing else list
      ])

abbrev first_word : List (List ℕ) → Option (List ℕ)
first_word [] = none
first_word (t ∷ ts) = some t

unfoldable pub cmd_ls : ℕ → (args : List (List ℕ)) → Kernel → Option Kernel
unfolding ls_options list_all list_one
cmd_ls f args k =
    let (show_all, path) = ls_options args false none in
    let one = list_one f show_all path (first_word args) k in
    let all : Option Kernel = elim path [ none ↦ none | some p ↦ list_all f show_all p k ] in
    if any_recursive args then all else one
