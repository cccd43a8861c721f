-- ===== src/Vfs/Init.antt =====
-- `init_filesystem` of vfs.c. `fresh` gives the address of a new node in a file system.
use Prim.Native.String.{String}
use keyhole_os.Prelude.{ℕ, true, false, Option, none, some, ◌==◌, if◌then◌else◌, [], ◌∷◌, bytes}
use keyhole_os.Vfs.{directory, Vfs, ◌>>=◌}
use keyhole_os.Vfs.Calls.{vfs_mkdir, vfs_touch, vfs_cd, vfs_write}

-- the root, in front of any call
unfoldable pub root_alone : (root : ℕ) → Vfs
root_alone root = record {
  nodes = λ p.
      if p == root
      then some (record {
        name = b'/' ∷ [];
        type = directory;
        content = none;
        data_size = 0;
        parent = root;
        first_child = 0;
        next_sibling = 0;
      })
      else none;
  root = root;
  current_dir = root;
  sudo_mode = true;
}

module _ (f : ℕ) (fresh : Vfs → ℕ) where
  make_directory : String → Vfs → Option Vfs
  make_directory path v = vfs_mkdir f v (fresh v) (bytes path) >>= λ r. some r.1

  change_directory : String → Vfs → Option Vfs
  change_directory path v = vfs_cd f v (bytes path) >>= λ r. some r.1

  make_file : String → Vfs → Option Vfs
  make_file path v = vfs_touch f v (fresh v) (bytes path) >>= λ r. some r.1

  unfoldable pub init_filesystem : (root : ℕ) → Option Vfs
  unfolding root_alone make_directory change_directory make_file
  init_filesystem root = do
    v1 ← make_directory "home" (root_alone root)
    v2 ← make_directory "etc" v1
    v3 ← make_directory "tmp" v2
    v4 ← make_directory "bin" v3
    v5 ← make_directory "var" v4
    v6 ← change_directory "home" v5
    v7 ← make_directory "root" v6
    v8 ← change_directory "/etc" v7
    v9 ← make_file "hostname" v8
    written ←
        vfs_write f v9 (fresh v9) (bytes "hostname")
          (bytes "KeyholeOS V1.2.1\nThis is the hostnamefile\n") false
    v10 ← change_directory "~" written.1
    v11 ← make_file ".ksh_history" v10
    some (record v11 { sudo_mode = false })
