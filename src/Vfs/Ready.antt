-- ===== src/Vfs/Ready.antt =====
-- The current directory and the root stay directories under the calls of Vfs.Calls and Vfs.Move.
use keyhole_os.Prelude.{ℕ, ◌≡◌, Bool, true, false, Option, some, List}
use keyhole_os.Vfs.{Vfs, ◌>>=◌}
use keyhole_os.Vfs.Calls.{vfs_cd, vfs_rm, vfs_rmdir, vfs_write, vfs_touch, vfs_mkdir}
use keyhole_os.Vfs.Move.{vfs_mv, vfs_cp}
use keyhole_os.Vfs.Keeps.{is_dir, Keeps}

pub record IsReady (v : Vfs) : Type 0 where
  pub here : is_dir v v.current_dir ≡ true
  pub top : is_dir v v.root ≡ true

-- the calls that change the file system; the address is that of a new node
pub data Call : Type 0 where
  mkdir touch : ℕ → List ℕ → Call
  cd rm rmdir : List ℕ → Call
  write : ℕ → (path text : List ℕ) → (append : Bool) → Call
  mv : (src dest : List ℕ) → Call
  cp : ℕ → (src dest : List ℕ) → Call

-- the state after a call
unfoldable pub run : ℕ → Vfs → Call → Option Vfs
run f v (mkdir fresh path) = vfs_mkdir f v fresh path >>= λ r. some r.1
run f v (touch fresh path) = vfs_touch f v fresh path >>= λ r. some r.1
run f v (cd path) = vfs_cd f v path >>= λ r. some r.1
run f v (rm path) = vfs_rm f v path >>= λ r. some r.1
run f v (rmdir path) = vfs_rmdir f v path >>= λ r. some r.1
run f v (write fresh path text append) = vfs_write f v fresh path text append >>= λ r. some r.1
run f v (mv src dest) = vfs_mv f v src dest >>= λ r. some r.1
run f v (cp fresh src dest) = vfs_cp f (λ v'. fresh) v src dest >>= λ r. some r.1

-- the address of a new node holds no directory
abbrev pub IsNew : Vfs → Call → Type 0
IsNew v (mkdir fresh path) = is_dir v fresh ≡ false
IsNew v (touch fresh path) = is_dir v fresh ≡ false
IsNew v (write fresh path text append) = is_dir v fresh ≡ false
IsNew v (cp fresh src dest) = is_dir v fresh ≡ false
IsNew v (mv src dest) = Unit {0}
IsNew v (cd path) = Unit {0}
IsNew v (rm path) = Unit {0}
IsNew v (rmdir path) = Unit {0}
