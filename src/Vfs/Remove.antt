-- ===== src/Vfs/Remove.antt =====
-- `vfs_rm_recursive` and `vfs_rm_r` of vfs.c.
use keyhole_os.Prelude.{
  ℕ, zero, suc, Bool, true, false, ◌&&◌, not, Option, none, some, ◌==◌, if◌then◌else◌, List, [],
  ◌∷◌,
}
use keyhole_os.Prelude.Int.{ℤ, pos}
use keyhole_os.Vfs.{Vfs, ◌>>=◌, is_directory, get, set_node, is_protected, resolve_path}
use keyhole_os.Vfs.Calls.{minus, vfs_cd, unlink}

-- `vfs_rm_recursive`, whose result no caller reads, and its loop from `child` on; the loop's flag says
-- that it went to the end.
unfoldable mutual
  pub vfs_rm_recursive : ℕ → Vfs → (node : ℕ) → Option Vfs
  vfs_rm_recursive zero v node = none
  vfs_rm_recursive (suc f) v node = get v node >>= λ n.
      rm_children f v n.first_child >>= λ (ended, v').
      (let after : Option Vfs = is_protected f v' node >>= λ protected.
      some (if protected && not v'.sudo_mode then v' else set_node node none v') in
        if ended then after else some v')

  pub rm_children : ℕ → Vfs → (child : ℕ) → Option (Bool × Vfs)
  rm_children zero v child = none
  rm_children (suc f) v child =
      let remove : Option (Bool × Vfs) = is_protected f v child >>= λ protected.
      (let go_on : Option (Bool × Vfs) = get v child >>= λ n.
      (let inside = vfs_rm_recursive f v child in
        (if is_directory n then inside else some (set_node child none v)) >>= λ v'.
        rm_children f v' n.next_sibling) in
        if protected && not v.sudo_mode then some (false, v) else go_on) in
      if child == 0 then some (true, v) else remove

-- The loop of `vfs_rm_r` over the children of the root; a child that stays is not unlinked here.
unfoldable pub rm_all : ℕ → ℕ → Vfs → (child : ℕ) → Option Vfs
rm_all zero depth v child = none
rm_all (suc f) depth v child =
    let remove : Option Vfs = get v child >>= λ n.
    vfs_rm_recursive depth v child >>= λ v'. rm_all f depth v' n.next_sibling in
    if child == 0 then some v else remove

-- `current_dir = root` where the current directory lies in the tree that is removed
unfoldable pub leave : ℕ → Vfs → (node check : ℕ) → Option Vfs
leave zero v node check = none
leave (suc f) v node check =
    let up : Option Vfs = get v check >>= λ n. leave f v node n.parent in
    if check == v.root
    then some v
    else if check == node
    then some (record v { current_dir = v.root })
    else up

-- the last loop of `vfs_rm_r`
unfoldable pub rm_r_loop : ℕ → ℕ → Vfs → (node parent prev child : ℕ) → Option (ℤ × Vfs)
unfolding leave
rm_r_loop zero depth v node parent prev child = none
rm_r_loop (suc f) depth v node parent prev child =
    let search : Option (ℤ × Vfs) = get v child >>= λ n.
    (let rest = rm_r_loop f depth v node parent child n.next_sibling in
      let remove : Option (ℤ × Vfs) = leave depth v node v.current_dir >>= λ v'.
      unlink v' parent prev n.next_sibling >>= λ v''.
      vfs_rm_recursive depth v'' child >>= λ v'''. some (pos 0, v''') in
      if child == node then remove else rest) in
    if child == 0 then some (minus 1, v) else search

-- `super` is `super_sudo_mode`.
unfoldable pub vfs_rm_r : ℕ → Vfs → (super : Bool) → List ℕ → Option (ℤ × Vfs)
unfolding rm_all rm_r_loop
vfs_rm_r f v super path = resolve_path f v path >>= λ node.
    (let from_root : Option (ℤ × Vfs) = vfs_cd f v (b'/' ∷ []) >>= λ (r, v').
    get v' v'.root >>= λ top. rm_all f f v' top.first_child >>= λ v''. get v'' v''.root >>= λ top'.
    some (pos 0, set_node v''.root (some (record top' { first_child = 0 })) v'') in
      let from_parent : Option (ℤ × Vfs) =
        get v node >>= λ n. get v n.parent >>= λ p. rm_r_loop f f v node n.parent 0 p.first_child in
      let allowed : Option (ℤ × Vfs) = is_protected f v node >>= λ protected.
      (if protected && not v.sudo_mode
        then some (minus 3, v)
        else if node == v.root && super
        then from_root
        else from_parent) in
      if node == 0
      then some (minus 1, v)
      else if node == v.root && not super
      then some (minus 5, v)
      else if node == v.current_dir
      then some (minus 4, v)
      else allowed)
