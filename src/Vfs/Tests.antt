-- ===== src/Vfs/Tests.antt =====
-- The theorems about the file system at a small tree: /home/root/notes and /etc.
use keyhole_os.Prelude.{
  ℕ, zero, suc, ◌+◌, ◌≡◌, ◌≢◌, refl, true, false, Option, none, some, ◌==◌, if◌then◌else◌, List, [],
  ◌∷◌, arith, bytes,
}
use keyhole_os.Prelude.Int.{pos}
use keyhole_os.Vfs.{
  Vfs, home, root_name, resolve_path, is_protected, locate, ◌>>=◌, find_child, same_text,
}
use keyhole_os.Vfs.Sample.{etc, etc_path, notes_path, folder, notes, tree, small, as_root}
use keyhole_os.Vfs.Calls.{
  minus, written, vfs_write, vfs_cat, vfs_mkdir, vfs_touch, vfs_rmdir, vfs_rm, vfs_cd,
}
use keyhole_os.Vfs.Data.{SizeIs, after, after_write, vfs_cat-vfs_write}
use keyhole_os.Vfs.Pwd.{IsName, Chain, top, below, vfs_pwd, resolve_path-vfs_pwd}
use keyhole_os.Vfs.Init.{init_filesystem}

etc_found : resolve_path 9 small etc_path ≡ some 0x500
unfolding resolve_path
etc_found = refl

up_found : resolve_path 9 small (b'.' ∷ b'.' ∷ b'/' ∷ root_name) ≡ some 0x300
unfolding resolve_path
up_found = refl

notes_found : resolve_path 9 small notes_path ≡ some 0x400
unfolding resolve_path
notes_found = refl

notes_open : is_protected 9 small 0x400 ≡ some false
unfolding is_protected
notes_open = refl

etc_protected : is_protected 9 small 0x500 ≡ some true
unfolding is_protected
etc_protected = refl

vfs_cat-vfs_write_example :
    let v' = after_write 0x400 true (b'y' ∷ []) notes small in
    (vfs_write 9 small 0x600 notes_path (b'y' ∷ []) true ≡ some (pos 0, v'))
    × (vfs_cat 9 v' notes_path
        ≡ some (pos 0, some (some (after true (some (b'x' ∷ [])) (b'y' ∷ [])))))
    × SizeIs (written true (b'y' ∷ []) notes).data_size (written true (b'y' ∷ []) notes).content
    × ((other : List ℕ) (q : ℕ)
        → resolve_path 9 small other ≡ some q
        → q ≢ 0x400
        → vfs_cat 9 v' other ≡ vfs_cat 9 small other)
vfs_cat-vfs_write_example =
    vfs_cat-vfs_write 9 small 0x600 notes_path (b'y' ∷ []) true 0x400 notes notes_found
      (omega arith) refl false refl notes_open refl refl

-- a file under /etc: its node in place of the directory's
abbrev locked : Vfs
locked = record small {
  nodes = λ p. if p == 0x500 then some (record notes { name = etc; parent = 0x100 }) else tree p;
}

locked_found : resolve_path 9 locked etc_path ≡ some 0x500
unfolding resolve_path
locked_found = refl

locked_protected : is_protected 9 locked 0x500 ≡ some true
unfolding is_protected
locked_protected = refl

abbrev without_etc : Vfs
without_etc = record as_root {
  nodes = λ p.
      if p == 0x500 then none else if p == 0x200 then some (folder home 0x100 0x300 0) else tree p;
}

cd_up : vfs_cd 9 small (b'.' ∷ b'.' ∷ []) ≡ some (pos 0, record small { current_dir = 0x200 })
unfolding vfs_cd resolve_path
cd_up = refl

cwd_kept : vfs_rmdir 9 small (b'.' ∷ []) ≡ some (minus 5, small)
unfolding vfs_rmdir resolve_path
cwd_kept = refl

mkdir_denied : vfs_mkdir 9 small 0x600 (b'/' ∷ b'x' ∷ []) ≡ some (0, small)
unfolding vfs_mkdir locate is_protected
mkdir_denied = refl

rm_directory : vfs_rm 9 as_root etc_path ≡ some (minus 2, as_root)
unfolding vfs_rm locate is_protected
rm_directory = refl

home-IsName : IsName home
unfolding same_text
home-IsName = record {
  nonempty = λ e. absurd (omega (arith, e));
  short = omega arith;
  no_slash = omega arith;
  not_up = refl;
  not_here = refl;
}

root_name-IsName : IsName root_name
unfolding same_text
root_name-IsName = record {
  nonempty = λ e. absurd (omega (arith, e));
  short = omega arith;
  no_slash = omega arith;
  not_up = refl;
  not_here = refl;
}

small-Chain : Chain 9 small 0x300 (home ∷ root_name ∷ [])
unfolding find_child
small-Chain =
    below (folder root_name 0x200 0x400 0) refl (omega arith) (omega arith) root_name-IsName refl (
      below (folder home 0x100 0x300 0x500) refl (omega arith) (omega arith) home-IsName refl
        (top refl))

resolve_path-vfs_pwd_example :
    (path : List ℕ) × (vfs_pwd 9 small ≡ some path) × (resolve_path 9 small path ≡ some 0x300)
resolve_path-vfs_pwd_example =
    resolve_path-vfs_pwd 9 small (omega arith) small-Chain (omega arith) (omega arith)

home_printed : vfs_pwd 9 small ≡ some (bytes "/home/root")
unfolding vfs_pwd
home_printed = refl

-- the lowest address of a few that holds no node
abbrev next_node : Vfs → ℕ
next_node v = scan 30 0x1000
  where
    scan : ℕ → ℕ → ℕ
    scan zero p = p
    scan (suc n) p = elim (v.nodes p) [ none ↦ p | some m ↦ scan n (p + 0x200) ]

abbrev started : Option Vfs
started = init_filesystem 20 next_node 0x100

started_in_home : (started >>= λ v. vfs_pwd 20 v) ≡ some (bytes "/home/root")
unfolding init_filesystem vfs_mkdir vfs_touch vfs_cd vfs_write resolve_path is_protected vfs_pwd
    locate
started_in_home = refl
