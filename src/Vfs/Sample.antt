-- ===== src/Vfs/Sample.antt =====
-- A small tree for the tests of vfs.c and of the shell: /home/root/notes and /etc.
use keyhole_os.Prelude.{ℕ, true, false, Option, none, some, ◌==◌, if◌then◌else◌, List, [], ◌∷◌}
use keyhole_os.Vfs.{file, directory, Node, Vfs, home, root_name}

abbrev pub notes_name : List ℕ
notes_name = b'n' ∷ b'o' ∷ b't' ∷ b'e' ∷ b's' ∷ []

abbrev pub etc : List ℕ
etc = b'e' ∷ b't' ∷ b'c' ∷ []

abbrev pub top_path : List ℕ
top_path = b'/' ∷ []

abbrev pub etc_path : List ℕ
etc_path = b'/' ∷ etc

abbrev pub notes_path : List ℕ
notes_path = b'~' ∷ b'/' ∷ notes_name

abbrev pub folder : List ℕ → (parent first_child next_sibling : ℕ) → Node
folder name parent child next = record {
  name = name;
  type = directory;
  content = none;
  data_size = 0;
  parent = parent;
  first_child = child;
  next_sibling = next;
}

abbrev pub notes : Node
notes = record {
  name = notes_name;
  type = file;
  content = some (b'x' ∷ []);
  data_size = 1;
  parent = 0x300;
  first_child = 0;
  next_sibling = 0;
}

abbrev pub tree : ℕ → Option Node
tree p =
    if p == 0x100
    then some (folder top_path 0x100 0x200 0)
    else if p == 0x200
    then some (folder home 0x100 0x300 0x500)
    else if p == 0x300
    then some (folder root_name 0x200 0x400 0)
    else if p == 0x400
    then some notes
    else if p == 0x500
    then some (folder etc 0x100 0 0)
    else none

abbrev pub small : Vfs
small = record { nodes = tree; root = 0x100; current_dir = 0x300; sudo_mode = false }

abbrev pub as_root : Vfs
as_root = record small { sudo_mode = true }
