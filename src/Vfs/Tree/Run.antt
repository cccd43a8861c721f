-- ===== src/Vfs/Tree/Run.antt =====
-- The calls of vfs.c one after another: the tree that every run of them keeps.
pub mod Steps
pub mod Reach
use keyhole_os.Prelude.{
  ℕ, suc, ◌+◌, ◌<◌, ◌≤◌, ◌≡◌, ◌≢◌, refl, sym, ap, ◌∙◌, Bool, true, false, Option, none, some, ◌==◌,
  List, [], ◌∷◌, ◌++◌, length, length-append, Bool-cases, inl, inr, arith,
}
use keyhole_os.Vfs.{Node, Vfs, get}
use keyhole_os.Vfs.Paths.{SameTree}
use keyhole_os.Vfs.Keeps.{is_dir, dir_of}
use keyhole_os.Vfs.Calls.{vfs_mkdir, vfs_touch, vfs_cd, vfs_rm, vfs_rmdir, vfs_write}
use keyhole_os.Vfs.Tree.{IsTree, Alike-some, dir_of-Alike, is_dir-live}
use keyhole_os.Vfs.Tree.Find.{IsEnough}
use keyhole_os.Vfs.Tree.Grow.{grown, grown_depth, not_fresh}
use keyhole_os.Vfs.Tree.Add.{Grown}
use keyhole_os.Vfs.Tree.Cut.{remove, cut}
use keyhole_os.Vfs.Tree.Unlink.{CutOff}
use keyhole_os.Vfs.Tree.Write.{SameTree-IsTree, SameTree-is_dir, SameTree-live}

-- The nodes are a tree in which the current directory is a directory, and fuel is left for `spare` new nodes.
pub record IsSettled (f spare : ℕ) (v : Vfs) : Type 0 where
  pub cs : ℕ → List ℕ
  pub depth : ℕ → ℕ
  pub tree : IsTree v cs depth
  pub here : is_dir v v.current_dir ≡ true
  pub room : (d : ℕ) → length (cs d) + spare < f
  pub high : (c : ℕ) (n : Node) → get v c ≡ some n → depth c + spare < f

pub enough_of : {f spare : ℕ} {v : Vfs} (s : IsSettled f spare v) → IsEnough f v s.cs s.depth
enough_of s = record {
  room = λ d. (let r = s.room d in omega (arith, r));
  high = λ c n at. (let h = s.high c n at in omega (arith, h));
}

-- a state that is settled stays so with less to spare
pub IsSettled-spare : (f k : ℕ) (v : Vfs) → IsSettled f (suc k) v → IsSettled f k v
IsSettled-spare f k v s = record {
  cs = s.cs;
  depth = s.depth;
  tree = s.tree;
  here = s.here;
  room = λ d. (let r = s.room d in omega (arith, r));
  high = λ c n at. (let h = s.high c n at in omega (arith, h));
}

length-grown :
    (fresh parent d k f : ℕ) (cs : ℕ → List ℕ)
    → ((a : ℕ) → length (cs a) + suc k < f)
    → length (grown fresh parent cs d) + k < f
length-grown fresh parent d k f cs room =
    let here = room d in
    let there = room parent in
    elim (Bool-cases (d == fresh)) [
      | inl e ↦ rw e (omega (arith, here))
      | inr e ↦ elim (Bool-cases (d == parent)) [
        | inl p ↦ rw (e, p, length-append (cs parent) (fresh ∷ [])) (omega (arith, there))
        | inr p ↦ rw (e, p) (omega (arith, here))
      ]
    ]

-- A new node takes one of the nodes to spare.
pub Grown-IsSettled :
    (f k fresh parent : ℕ) (v v' : Vfs) (node : Node) (s : IsSettled f (suc k) v)
    → Grown v v' s.cs s.depth fresh parent node
    → IsSettled f k v'
Grown-IsSettled f k fresh parent v v' node s g = record {
  cs = grown fresh parent s.cs;
  depth = grown_depth fresh parent s.depth;
  tree = g.tree;
  here =
      let (n, at) = is_dir-live v v.current_dir s.here in
      let far = not_fresh s.tree fresh v.current_dir n g.added.unused at in
      ap (is_dir v') g.here_same
      ∙ dir_of-Alike (get v' v.current_dir) (get v v.current_dir) (g.added.same v.current_dir far)
      ∙ s.here;
  room = λ d. length-grown fresh parent d k f s.cs s.room;
  high = high;
}
  where
    high : (c : ℕ) (n : Node) → get v' c ≡ some n → grown_depth fresh parent s.depth c + k < f
    high c n e = elim (Bool-cases (c == fresh)) [
      | inl q ↦ let h = s.high parent g.added.directory g.added.at in rw q (omega (arith, h))
      | inr q ↦
          let (m, at, alike) = Alike-some (get v' c) (get v c) n (g.added.same c q) e in
          let h = s.high c m at in rw q (omega (arith, h))
    ]

length-remove : (c : ℕ) (xs : List ℕ) → length (remove c xs) ≤ length xs
length-remove c [] = omega arith
length-remove c (x ∷ xs) =
    let rest = length-remove c xs in
    elim (Bool-cases (c == x)) [ inl e ↦ rw e (omega arith) | inr e ↦ rw e (omega (arith, rest)) ]

-- A node that is taken out costs nothing, unless it is the current directory.
pub CutOff-IsSettled :
    (f k gone parent : ℕ) (v v' : Vfs) (s : IsSettled f k v)
    → v.current_dir ≢ gone
    → CutOff v v' s.cs s.depth gone parent
    → IsSettled f k v'
CutOff-IsSettled f k gone parent v v' s far o = record {
  cs = cut gone parent s.cs;
  depth = s.depth;
  tree = o.tree;
  here =
      let ne : (v.current_dir == gone) ≡ false = ground (arith, far) in
      ap (is_dir v') o.here_same
      ∙ dir_of-Alike (get v' v.current_dir) (get v v.current_dir) (o.removed.same v.current_dir ne)
      ∙ s.here;
  room = room;
  high = high;
}
  where
    room : (d : ℕ) → length (cut gone parent s.cs d) + k < f
    room d = elim (Bool-cases (d == parent)) [
      | inl q ↦
          let shorter = length-remove gone (s.cs parent) in
          let r = s.room parent in rw q (omega (arith, shorter, r))
      | inr q ↦ rw q (s.room d)
    ]

    high : (c : ℕ) (n : Node) → get v' c ≡ some n → s.depth c + k < f
    high c n e = elim (Bool-cases (c == gone)) [
      | inl q ↦
          let eq : c ≡ gone = ground (arith, q) in
          let dead : get v' c ≡ none = ap (get v') eq ∙ o.removed.freed in absurd (cc)
      | inr q ↦
          let (m, at, alike) = Alike-some (get v' c) (get v c) n (o.removed.same c q) e in
          s.high c m at
    ]

-- Data that is written to a file costs nothing.
pub SameTree-IsSettled :
    (f k : ℕ) (v : Vfs) (nodes' : ℕ → Option Node)
    → SameTree v nodes'
    → IsSettled f k v
    → IsSettled f k (record v { nodes = nodes' })
SameTree-IsSettled f k v nodes' same s = record {
  cs = s.cs;
  depth = s.depth;
  tree = SameTree-IsTree v nodes' same s.tree;
  here = SameTree-is_dir v nodes' same v.current_dir ∙ s.here;
  room = s.room;
  high = λ c n e. (let (m, at, alike) = SameTree-live v nodes' same c n e in s.high c m at);
}
