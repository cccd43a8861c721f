-- ===== src/Vfs/Moved.antt =====
-- What `vfs_mv` and `vfs_cp` keep: the directories, the root and the current directory.
use keyhole_os.Prelude.{
  ℕ, zero, suc, ◌≡◌, refl, Bool, ◌&&◌, not, Option, some, ◌==◌, List, take, none,
}
use keyhole_os.Prelude.Int.{ℤ, pos}
use keyhole_os.Vfs.{
  Node, NodeType, Vfs, is_directory, get, set_node, is_protected, resolve_path, fits,
}
use keyhole_os.Vfs.Calls.{unlink, create, vfs_touch}
use keyhole_os.Vfs.Move.{
  mv_unlink, push_child, move_node, names_directory, vfs_mv, full_dest, vfs_cp,
}
use keyhole_os.Vfs.Keeps.{
  Post, Post-bind, Post-then, Post-if, Keeps, Keeps-refl, Keeps-trans, Keeps-set, StateKeeps,
  create-Keeps,
}

unlink-Keeps :
    (gone : ℕ) (v : Vfs) (parent prev next : ℕ) → Post (Keeps gone v) (unlink v parent prev next)
unfolding unlink
unlink-Keeps gone v parent prev next =
    Post-if (Keeps gone v) (prev == 0) _ _
      (λ first.
        Post-bind (Keeps gone v) (get v parent) _ (λ p at. Keeps-set gone parent v p _ at refl))
      (λ later. Post-bind (Keeps gone v) (get v prev) _ (λ p at. Keeps-set gone prev v p _ at refl))

mv_unlink-Keeps :
    (f gone : ℕ) (v : Vfs) (node parent prev child : ℕ)
    → Post (Keeps gone v) (mv_unlink f v node parent prev child)
unfolding mv_unlink
mv_unlink-Keeps zero gone v node parent prev child = tt
mv_unlink-Keeps (suc f) gone v node parent prev child =
    Post-if (Keeps gone v) (child == 0) _ _ (λ z. Keeps-refl gone v)
      (λ nz. Post-bind (Keeps gone v) (get v child) _ (λ n at.
        Post-if (Keeps gone v) (child == node) _ _
          (λ hit. unlink-Keeps gone v parent prev n.next_sibling)
          (λ miss. mv_unlink-Keeps f gone v node parent child n.next_sibling)))

push_child-Keeps :
    (gone : ℕ) (v : Vfs) (node parent : ℕ) (change : Node → ℕ → Node)
    → ((n : Node) (first : ℕ) → is_directory (change n first) ≡ is_directory n)
    → Post (Keeps gone v) (push_child v node parent change)
unfolding push_child
push_child-Keeps gone v node parent change same = Post-bind (Keeps gone v) (get v parent) _ λ p at.
    Post-bind (Keeps gone v) (get v node) _ λ n at'.
      (let v' = set_node node (some (change n p.first_child)) v in
        Post-bind (Keeps gone v) (get v' parent) _ λ p' at''.
          Keeps-trans (Keeps-set gone node v n _ at' (same n p.first_child))
            (Keeps-set gone parent v' p' _ at'' refl))

move_node-Keeps :
    (f gone : ℕ) (v : Vfs) (node dest_node : ℕ) (dest : List ℕ) (into : Bool)
    → Post (StateKeeps gone v) (move_node f v node dest_node dest into)
unfolding move_node
move_node-Keeps f gone v node dest_node dest into =
    let P = StateKeeps {A = ℤ} gone v in
    Post-bind P (get v node) _ λ n at. Post-bind P (get v n.parent) _ λ p at'.
      Post-then (Keeps gone v) P (mv_unlink f v node n.parent 0 p.first_child) _
        (mv_unlink-Keeps f gone v node n.parent 0 p.first_child)
        (λ v' k.
          Post-then (Keeps gone v') P _ _
            (Post-if (Keeps gone v') into _ _
              (λ inside. push_child-Keeps gone v' node dest_node _ (λ m first. refl))
              (λ renamed.
                Post-bind (Keeps gone v') (fits dest) _
                  (λ name e. push_child-Keeps gone v' node n.parent _ (λ m first. refl))))
            (λ v'' k'. Keeps-trans k k'))

-- A move takes no directory away: it leaves the type of each node, the root and the current directory.
pub mv-Keeps :
    (f gone : ℕ) (v : Vfs) (src dest : List ℕ) → Post (StateKeeps gone v) (vfs_mv f v src dest)
unfolding vfs_mv
mv-Keeps f gone v src dest =
    let P = StateKeeps {A = ℤ} gone v in
    Post-bind P (resolve_path f v src) _ λ node e.
      Post-if P (node == 0) _ _ (λ z. Keeps-refl gone v)
        (λ nz.
          Post-if P (node == v.root) _ _ (λ z. Keeps-refl gone v)
            (λ nr. Post-bind P (is_protected f v node) _ (λ protected e'.
              Post-if P (protected && not v.sudo_mode) _ _ (λ z. Keeps-refl gone v)
                (λ a. Post-bind P (resolve_path f v dest) _ (λ dest_node e''.
                  Post-bind P (names_directory v dest_node) _ (λ into e'''.
                    Post-if P into _ _
                      (λ inside. Post-bind P (is_protected f v dest_node) _ (λ guarded g.
                        Post-if P (guarded && not v.sudo_mode) _ _ (λ z. Keeps-refl gone v)
                          (λ b. move_node-Keeps f gone v node dest_node dest into)))
                      (λ renamed. move_node-Keeps f gone v node dest_node dest into)))))))

-- A copy makes one node, at a new address, and takes no directory away.
pub cp-Keeps :
    (f : ℕ) (fresh : Vfs → ℕ) (v : Vfs) (src dest : List ℕ)
    → Post (StateKeeps (fresh v) v) (vfs_cp f fresh v src dest)
unfolding vfs_cp vfs_touch
cp-Keeps f fresh v src dest =
    let P = StateKeeps {A = ℤ} (fresh v) v in
    Post-bind P (resolve_path f v src) _ λ node e.
      Post-if P (node == 0) _ _ (λ z. Keeps-refl (fresh v) v)
        (λ nz. Post-bind P (get v node) _ (λ n at.
          Post-if P (is_directory n) _ _ (λ d. Keeps-refl (fresh v) v)
            (λ nd. Post-bind P (full_dest f v dest n.name) _ (λ target e'.
              Post-then (StateKeeps (fresh v) v) P (create f v (fresh v) NodeType.file target) _
                (create-Keeps f v (fresh v) NodeType.file target)
                (λ (made, v') k.
                  Post-if P (made == 0) _ _ (λ z. k)
                    (λ nz'. Post-bind P (get v' node) _ (λ n' at'.
                      Post-bind P (get v' made) _
                        (λ c at''. fill v' k n'.content n'.data_size made c at''))))))))
  where
    fill :
        (v' : Vfs)
        → Keeps (fresh v) v v'
        → (content : Option (List ℕ)) (size made : ℕ) (c : Node) → get v' made ≡ some c
        → StateKeeps {A = ℤ} (fresh v) v (elim content [
          | none ↦ (pos 0, v')
          | some text ↦
              let bytes = some (take size text) in
              let filled = record c { content = bytes; data_size = size } in
              (pos 0, set_node made (some filled) v')
        ])
    fill v' k none size made c at = k
    fill v' k (some text) size made c at = Keeps-trans k (Keeps-set (fresh v) made v' c _ at refl)
