-- ===== src/Vfs/Pwd.antt =====
-- `vfs_pwd` of vfs.c, and that its path leads back to the current directory.
use mathlib.Core.List.{append_assoc, append-nil}
use keyhole_os.Prelude.{
  ◌&&◌, ℕ, zero, suc, ◌+◌, ◌-◌, ◌≤◌, ◌<◌, ◌≡◌, ◌≢◌, refl, sym, ap, ◌∙◌, true, false, Option, none,
  some, ◌==◌, leb, if◌then◌else◌, List, [], ◌∷◌, ◌++◌, length, length-append, arith,
}
use keyhole_os.Vfs.{
  is_name, Vfs, Node, ◌>>=◌, get, find_child, same_text, enter, walk, resolve_path,
}

-- The loop of `vfs_pwd`: `text` is what stands in the buffer from `pos` on. The path of a node too deep
-- for the buffer starts in front of it, and is empty where it starts with it.
unfoldable pub pwd_loop : ℕ → Vfs → (node pos : ℕ) → (text : List ℕ) → Option (List ℕ)
pwd_loop zero v node pos text = none
pwd_loop (suc f) v node pos text =
    let up : Option (List ℕ) = get v node >>= λ n.
    (let len = length n.name in
      let rest = pwd_loop f v n.parent (pos - len - 1) ((b'/' ∷ n.name) ++ text) in
      if leb (len + 1) pos then rest else if pos == len then some [] else none) in
    if node == v.root then some text else up

unfoldable pub vfs_pwd : ℕ → Vfs → Option (List ℕ)
unfolding pwd_loop
vfs_pwd f v =
    let from_here = pwd_loop f v v.current_dir 4095 [] in
    if v.current_dir == v.root then some (b'/' ∷ []) else from_here

abbrev pub NoSlash : List ℕ → Type 0
NoSlash [] = Unit {0}
NoSlash (c ∷ cs) = (c ≢ b'/') × NoSlash cs

-- a name that a path can spell
pub record IsName (name : List ℕ) : Type 0 where
  pub nonempty : length name ≢ 0
  pub short : length name < 256
  pub no_slash : NoSlash name
  pub not_up : same_text name (b'.' ∷ b'.' ∷ []) ≡ false
  pub not_here : same_text name (b'.' ∷ []) ≡ false

-- The names on the way from the root down to a node, each found by its name.
pub data Chain (f : ℕ) (v : Vfs) : (node : ℕ) → List (List ℕ) → Type 0 where
  top : {node : ℕ} → node ≡ v.root → Chain f v node []
  below :
      {node : ℕ} {names : List (List ℕ)} (n : Node)
      → get v node ≡ some n
      → node ≢ v.root
      → node ≢ 0
      → IsName n.name
      → find_child f v n.parent n.name ≡ some node
      → Chain f v n.parent names
      → Chain f v node (names ++ (n.name ∷ []))

-- the path with a slash in front of each name
abbrev pub slashed : List (List ℕ) → List ℕ
slashed [] = []
slashed (name ∷ names) = (b'/' ∷ name) ++ slashed names

slashed-append :
    (names : List (List ℕ)) (name rest : List ℕ)
    → slashed (names ++ (name ∷ [])) ++ rest ≡ slashed names ++ ((b'/' ∷ name) ++ rest)
slashed-append [] name rest = rw (append-nil name) refl
slashed-append (x ∷ names) name rest =
    append_assoc (b'/' ∷ x) (slashed (names ++ (name ∷ []))) rest
    ∙ ap (λ l. (b'/' ∷ x) ++ l) (slashed-append names name rest)
    ∙ sym (append_assoc (b'/' ∷ x) (slashed names) ((b'/' ∷ name) ++ rest))

length-slashed :
    (names : List (List ℕ)) (name : List ℕ)
    → length (slashed (names ++ (name ∷ []))) ≡ length (slashed names) + length name + 1
length-slashed names name =
    let e = slashed-append names name [] in
    let whole = rw (append-nil (slashed (names ++ (name ∷ []))), append-nil name) at e in
    ap length whole ∙ omega (arith, length-append (slashed names) (b'/' ∷ name))

pwd_loop_lem :
    {names : List (List ℕ)} (f : ℕ) (v : Vfs) (node pos depth : ℕ) (text : List ℕ)
    → Chain depth v node names
    → length names < f
    → length (slashed names) ≤ pos
    → pwd_loop f v node pos text ≡ some (slashed names ++ text)
unfolding pwd_loop
pwd_loop_lem zero v node pos depth text c h fit = absurd (omega arith)
pwd_loop_lem (suc f) v node pos depth text (top e) h fit =
    let at : (node == v.root) ≡ true = ground arith in rw at refl
pwd_loop_lem (suc f) v node pos depth text (below {names} n at nr nz good found up) h fit =
    let inner : (node == v.root) ≡ false = ground arith in
    let count = length-append names (n.name ∷ []) in
    let size = length-slashed names n.name in
    let room : leb (length n.name + 1) pos ≡ true = ground (arith, size, fit) in
    let rest =
      pwd_loop_lem f v n.parent (pos - length n.name - 1) depth ((b'/' ∷ n.name) ++ text) up
        (omega (arith, count, h)) (omega (arith, size, fit)) in
    rw (inner, at, room) (rest ∙ ap some (sym (slashed-append names n.name text)))

-- The characters of a name are gathered.
walk_name :
    (f : ℕ) (v : Vfs) (node : ℕ) (token name rest : List ℕ)
    → NoSlash name
    → walk f v node token (name ++ rest) ≡ walk f v node (token ++ name) rest
unfolding walk
walk_name f v node token [] rest h = rw (append-nil token) refl
walk_name f v node token (c ∷ name) rest h =
    let plain : (c == b'/') ≡ false = ground (arith, h.0) in
    rw (plain, walk)
      (walk_name f v node (token ++ (c ∷ [])) name rest h.1
        ∙ ap (λ t. walk f v node t rest) (append_assoc token (c ∷ []) name))

enter_name :
    (f : ℕ) (v : Vfs) (node : ℕ) (name : List ℕ)
    → IsName name
    → enter f v node name ≡ find_child f v node name
unfolding enter
enter_name f v node name g =
    let short : leb 256 (length name) ≡ false = let s = g.short in ground arith in
    let some_left : leb (length name) 0 ≡ false = let n = g.nonempty in ground arith in
    rw (short, some_left, g.not_up, g.not_here) refl

enter_empty : (f : ℕ) (v : Vfs) (node : ℕ) → enter f v node [] ≡ some node
unfolding enter
enter_empty f v node = refl

walk_slash :
    (f : ℕ) (v : Vfs) (node : ℕ) (token rest : List ℕ)
    → walk f v node token (b'/' ∷ rest) ≡ (
        enter f v node token >>= λ n.
        if n == 0 && is_name token then some 0 else walk f v n [] rest)
unfolding walk
walk_slash f v node token rest = refl

walk_end :
    (f : ℕ) (v : Vfs) (node : ℕ) (token : List ℕ) → walk f v node token [] ≡ enter f v node token
unfolding walk
walk_end f v node token = refl

-- A path with a leading slash is walked from the root.
resolve_absolute :
    (f : ℕ) (v : Vfs) (path : List ℕ) → resolve_path f v (b'/' ∷ path) ≡ walk f v v.root [] path
unfolding resolve_path
resolve_absolute f v path = refl

module _ (f : ℕ) (v : Vfs) (real : v.root ≢ 0) where
  walk_root : (rest : List ℕ) → walk f v v.root [] (b'/' ∷ rest) ≡ walk f v v.root [] rest
  walk_root rest =
      let nz : (v.root == 0) ≡ false = ground arith in
      walk_slash f v v.root [] rest ∙ rw (enter_empty f v v.root, nz) refl

  walk_chain :
      {names : List (List ℕ)} (node : ℕ) (rest : List ℕ)
      → Chain f v node names
      → walk f v v.root [] (slashed names ++ (b'/' ∷ rest)) ≡ walk f v node [] rest
  walk_chain node rest (top e) = walk_root rest ∙ ap (λ r. walk f v r [] rest) (sym e)
  walk_chain node rest (below {names} n at nr nz good found up) =
      let there : (node == 0) ≡ false = ground arith in
      ap (λ l. walk f v v.root [] l) (slashed-append names n.name (b'/' ∷ rest))
      ∙ walk_chain n.parent (n.name ++ (b'/' ∷ rest)) up
      ∙ walk_name f v n.parent [] n.name (b'/' ∷ rest) good.no_slash
      ∙ walk_slash f v n.parent n.name rest
      ∙ rw (enter_name f v n.parent n.name good, found, there) refl

  walk_last :
      {names : List (List ℕ)} (node : ℕ)
      → Chain f v node names
      → walk f v v.root [] (slashed names) ≡ some node
  walk_last node (top e) = walk_end f v v.root [] ∙ enter_empty f v v.root ∙ ap some (sym e)
  walk_last node (below {names} n at nr nz good found up) =
      let e = slashed-append names n.name [] in
      let whole = rw (append-nil (slashed (names ++ (n.name ∷ []))), append-nil n.name) at e in
      let gathered = walk_name f v n.parent [] n.name [] good.no_slash in
      let name_read = rw (append-nil n.name) at gathered in
      ap (λ l. walk f v v.root [] l) whole
      ∙ walk_chain n.parent n.name up
      ∙ name_read
      ∙ walk_end f v n.parent n.name
      ∙ enter_name f v n.parent n.name good
      ∙ found

  absolute :
      (names : List (List ℕ)) (name : List ℕ)
      → resolve_path f v (slashed (names ++ (name ∷ [])))
        ≡ walk f v v.root [] (slashed (names ++ (name ∷ [])))
  absolute [] name = resolve_absolute f v (name ++ []) ∙ sym (walk_root (name ++ []))
  absolute (x ∷ names) name =
      let rest = x ++ slashed (names ++ (name ∷ [])) in
      resolve_absolute f v rest ∙ sym (walk_root rest)

  -- the answer of `vfs_pwd`
  abbrev answer : List (List ℕ) → List ℕ
  answer [] = b'/' ∷ []
  answer (x ∷ names) = slashed (x ∷ names)

  answer-snoc :
      (names : List (List ℕ)) (name : List ℕ)
      → answer (names ++ (name ∷ [])) ≡ slashed (names ++ (name ∷ []))
  answer-snoc [] name = refl
  answer-snoc (x ∷ names) name = refl

  resolve-answer :
      {names : List (List ℕ)} (node : ℕ)
      → Chain f v node names
      → resolve_path f v (answer names) ≡ some node
  resolve-answer node (top e) = resolve_absolute f v [] ∙ walk_last node (top e)
  resolve-answer node (below {names} n at nr nz good found up) =
      ap (λ l. resolve_path f v l) (answer-snoc names n.name)
      ∙ absolute names n.name
      ∙ walk_last node (below n at nr nz good found up)

  vfs_pwd-answer :
      {names : List (List ℕ)} (node : ℕ)
      → Chain f v node names
      → v.current_dir ≡ node
      → length names < f
      → length (slashed names) ≤ 4095
      → vfs_pwd f v ≡ some (answer names)
  unfolding vfs_pwd
  vfs_pwd-answer node (top e) here h fit =
      let at : (v.current_dir == v.root) ≡ true = ground arith in rw at refl
  vfs_pwd-answer node (below {names} n at nr nz good found up) here h fit =
      let inner : (v.current_dir == v.root) ≡ false = ground arith in
      let all = names ++ (n.name ∷ []) in
      let text = pwd_loop_lem f v node 4095 f [] (below n at nr nz good found up) h fit in
      rw inner (
        ap (λ p. pwd_loop f v p 4095 []) here
        ∙ text
        ∙ ap some (append-nil (slashed all))
        ∙ ap some (sym (answer-snoc names n.name)))

-- Where the way down from the root leads by the names, at most 4095 bytes with their slashes, `vfs_pwd`
-- ends, given fuel beyond their number, and `resolve_path` of its answer is the current directory.
pub resolve_path-vfs_pwd :
    {names : List (List ℕ)} (f : ℕ) (v : Vfs)
    → v.root ≢ 0
    → Chain f v v.current_dir names
    → length names < f
    → length (slashed names) ≤ 4095
    → (path : List ℕ) × (vfs_pwd f v ≡ some path) × (resolve_path f v path ≡ some v.current_dir)
resolve_path-vfs_pwd {names} f v real c h fit = (
  answer f v real names,
  vfs_pwd-answer f v real v.current_dir c refl h fit,
  resolve-answer f v real v.current_dir c,
)
