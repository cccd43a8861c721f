-- ===== src/Vfs/Tree/Run/Reach.antt =====
-- Runs of calls of vfs.c, as paths of a step relation on the states.
use mathlib.Core.Path.{subst}
use keyhole_os.Prelude.{ℕ, zero, suc, ◌+◌, ◌≡◌, true, some, arith}
use keyhole_os.Vfs.{Vfs}
use keyhole_os.Vfs.Ready.{Call, run}
use keyhole_os.Vfs.Tree.Run.{IsSettled}
use keyhole_os.Vfs.Tree.Run.Steps.{path_of, is_plain_call, HasRoom, IsPlain, run-IsSettled}

-- `w` is the state after some `n` calls from `v` on
pub data Reaches (f : ℕ) (v : Vfs) : ℕ → Vfs → Type 0 where
  start : Reaches f v 0 v
  next :
      {n : ℕ} {w w' : Vfs}
      → Reaches f v n w
      → (call : Call) → is_plain_call call ≡ true
      → HasRoom w call
      → IsPlain (path_of call)
      → run f w call ≡ some w'
      → Reaches f v (suc n) w'

Reaches-IsSettled :
    (f n k : ℕ) (v w : Vfs) → IsSettled f (n + k) v → Reaches f v n w → IsSettled f k w
Reaches-IsSettled f zero k v w s start =
    let none_left : 0 + k ≡ k = omega arith in subst (λ j. IsSettled f j v) none_left s
Reaches-IsSettled f (suc n) k v w' s (next {w = w} r call covered room plain e) =
    let more : suc n + k ≡ n + suc k = omega arith in
    let (w'', e', s') =
      run-IsSettled f k w call
        (Reaches-IsSettled f n (suc k) v w (subst (λ j. IsSettled f j v) more s) r) covered room
        plain in
    let same : w'' ≡ w' = cc in subst (IsSettled f k) same s'

-- Let the nodes be a tree, the current directory a directory, and the fuel enough for the tree with `n + 1`
-- more nodes. Then after any `n` calls of `vfs_mkdir`, `vfs_touch`, `vfs_cd`, `vfs_rm`, `vfs_rmdir` and
-- `vfs_write` (each with a path of less than 256 bytes that does not start with `~`, and an unused address for a
-- new node) the nodes are a tree and the current directory is a directory of it; and every further such call
-- ends, in such a state again.
pub Reaches-goes_on :
    (f n : ℕ) (v w : Vfs)
    → IsSettled f (n + 1) v
    → Reaches f v n w
    → (call : Call) → is_plain_call call ≡ true
    → HasRoom w call
    → IsPlain (path_of call)
    → IsSettled f 1 w × ((w' : Vfs) × (run f w call ≡ some w') × IsSettled f 0 w')
Reaches-goes_on f n v w s r call covered room plain =
    let s' = Reaches-IsSettled f n 1 v w s r in (s', run-IsSettled f 0 w call s' covered room plain)
