-- ===== src/Vfs/Keeps.antt =====
-- What the steps of vfs.c keep: the directories, the root and the current directory.
use keyhole_os.Prelude.{
  ℕ, ◌≡◌, ◌≢◌, refl, ◌∙◌, sym, ap, Bool, true, false, ◌&&◌, not, Option, none, some, ◌==◌,
  if◌then◌else◌, List, Bool-cases, inl, inr, arith,
}
use keyhole_os.Prelude.Int.{pos}
use keyhole_os.Vfs.{NodeType, Node, Vfs, ◌>>=◌, is_directory, get, set_node, is_protected, locate}
use keyhole_os.Vfs.Calls.{make_node, add_child, last_child, create, unlink}

abbrev pub dir_of : Option Node → Bool
dir_of none = false
dir_of (some n) = is_directory n

-- a live directory stands at `p`
abbrev pub is_dir : Vfs → ℕ → Bool
is_dir v p = dir_of (get v p)

-- what holds of a result, if there is one
abbrev pub Post : {A : Type 0} → (A → Type 0) → Option A → Type 0
Post P none = Unit {0}
Post P (some a) = P a

pub Post-bind :
    {A B : Type 0} (P : B → Type 0) (o : Option A) (k : A → Option B)
    → ((a : A) → o ≡ some a → Post P (k a))
    → Post P (o >>= k)
Post-bind P none k h = tt
Post-bind P (some a) k h = h a refl

pub Post-then :
    {A B : Type 0} (P : A → Type 0) (Q : B → Type 0) (o : Option A) (k : A → Option B)
    → Post P o
    → ((a : A) → P a → Post Q (k a))
    → Post Q (o >>= k)
Post-then P Q none k p h = tt
Post-then P Q (some a) k p h = h a p

pub Post-if :
    {A : Type 0} (P : A → Type 0) (b : Bool) (x y : Option A)
    → (b ≡ true → Post P x)
    → (b ≡ false → Post P y)
    → Post P (if b then x else y)
Post-if P true x y h k = h refl
Post-if P false x y h k = k refl

pub Post-mono :
    {A : Type 0} (P Q : A → Type 0) (o : Option A) → ((a : A) → P a → Q a) → Post P o → Post Q o
Post-mono P Q none h p = tt
Post-mono P Q (some a) h p = h a p

-- Every directory of `v` but the one at `gone` is one of `v'`, and the two entry points are the same.
pub record Keeps (gone : ℕ) (v v' : Vfs) : Type 0 where
  pub dirs : (p : ℕ) → p ≢ gone → is_dir v p ≡ true → is_dir v' p ≡ true
  pub root_same : v'.root ≡ v.root
  pub current_same : v'.current_dir ≡ v.current_dir

pub Keeps-refl : (gone : ℕ) (v : Vfs) → Keeps gone v v
Keeps-refl gone v = record { dirs = λ p ne h. h; root_same = refl; current_same = refl }

pub Keeps-trans : {gone : ℕ} {u v w : Vfs} → Keeps gone u v → Keeps gone v w → Keeps gone u w
Keeps-trans a b = record {
  dirs = λ p ne h. b.dirs p ne (a.dirs p ne h);
  root_same = b.root_same ∙ a.root_same;
  current_same = b.current_same ∙ a.current_same;
}

get_self : (q : ℕ) (v : Vfs) (o : Option Node) → (q == 0) ≡ false → get (set_node q o v) q ≡ o
get_self q v o nz = let self : (q == q) ≡ true = ground arith in rw (nz, self) refl

get_far :
    (p q : ℕ) (v : Vfs) (o : Option Node) → (p == q) ≡ false → get (set_node q o v) p ≡ get v p
get_far p q v o far = rw far refl

nonnull : (q : ℕ) (v : Vfs) (n : Node) → get v q ≡ some n → (q == 0) ≡ false
nonnull q v n at = elim (Bool-cases (q == 0)) [
  | inl z ↦ let none_there : get v q ≡ none = rw z refl in cc
  | inr nz ↦ nz
]

-- a node written anew, of the same type
pub Keeps-set :
    (gone q : ℕ) (v : Vfs) (n n' : Node)
    → get v q ≡ some n
    → is_directory n' ≡ is_directory n
    → Keeps gone v (set_node q (some n') v)
Keeps-set gone q v n n' at same = record { dirs = keep; root_same = refl; current_same = refl }
  where
    keep : (p : ℕ) → p ≢ gone → is_dir v p ≡ true → is_dir (set_node q (some n') v) p ≡ true
    keep p ne h = elim (Bool-cases (p == q)) [
      | inl e ↦
          let eq : p ≡ q = ground arith in
          let old : is_dir v q ≡ true = rw eq at h in
          let was : is_directory n ≡ true = sym (ap dir_of at) ∙ old in
          rw eq (ap dir_of (get_self q v (some n') (nonnull q v n at)) ∙ same ∙ was)
      | inr far ↦ ap dir_of (get_far p q v (some n') far) ∙ h
    ]

-- a new node where there was no directory, or a node taken away
Keeps-over : (q : ℕ) (v : Vfs) (o : Option Node) → Keeps q v (set_node q o v)
Keeps-over q v o = record { dirs = keep; root_same = refl; current_same = refl }
  where
    keep : (p : ℕ) → p ≢ q → is_dir v p ≡ true → is_dir (set_node q o v) p ≡ true
    keep p ne h = ap dir_of (get_far p q v o (ground arith)) ∙ h

add_child-Keeps :
    (f : ℕ) (v : Vfs) (fresh parent : ℕ) (node : Node)
    → Post (Keeps fresh v) (add_child f v fresh parent node)
unfolding add_child
add_child-Keeps f v fresh parent node =
    let v' = set_node fresh (some node) v in
    let k : Keeps fresh v v' = Keeps-over fresh v (some node) in
    Post-bind (Keeps fresh v) (get v' parent) _ (λ p at.
      Post-if (Keeps fresh v) (p.first_child == 0) _ _
        (λ z. Keeps-trans k (Keeps-set fresh parent v' p _ at refl))
        (λ nz. Post-bind (Keeps fresh v) (last_child f v' p.first_child) _ (λ c last.
          Post-bind (Keeps fresh v) (get v' c) _
            (λ n at'. Keeps-trans k (Keeps-set fresh c v' n _ at' refl)))))

abbrev pub StateKeeps : {A : Type 0} → (gone : ℕ) → Vfs → A × Vfs → Type 0
StateKeeps gone v r = Keeps gone v r.1

make_node-Keeps :
    (f : ℕ) (v : Vfs) (fresh : ℕ) (type : NodeType) (parent : ℕ) (name : List ℕ)
    → Post (StateKeeps fresh v) (make_node f v fresh type parent name)
unfolding make_node
make_node-Keeps f v fresh type parent name =
    Post-bind (StateKeeps fresh v) (is_protected f v parent) _ λ protected e.
      Post-if (StateKeeps fresh v) (protected && not v.sudo_mode) _ _ (λ d. Keeps-refl fresh v)
        (λ a.
          Post-then (Keeps fresh v) (StateKeeps fresh v) (add_child f v fresh parent _) _
            (add_child-Keeps f v fresh parent _) (λ v' k. k))

pub create-Keeps :
    (f : ℕ) (v : Vfs) (fresh : ℕ) (type : NodeType) (path : List ℕ)
    → Post (StateKeeps fresh v) (create f v fresh type path)
unfolding create
create-Keeps f v fresh type path =
    Post-bind (StateKeeps fresh v) (locate f v path) _ λ (parent, name, looked_up) e.
      (let made = make_node-Keeps f v fresh type parent name in
        Post-if (StateKeeps fresh v) looked_up _ _
          (λ l.
            Post-if (StateKeeps fresh v) (parent == 0) _ _ (λ z. Keeps-refl fresh v)
              (λ nz. Post-bind (StateKeeps fresh v) (get v parent) _ (λ p at.
                Post-if (StateKeeps fresh v) (is_directory p) _ _ (λ d. made)
                  (λ nd. Keeps-refl fresh v))))
          (λ l. made))

unlink-Keeps :
    (gone : ℕ) (v : Vfs) (parent prev next : ℕ) → Post (Keeps gone v) (unlink v parent prev next)
unfolding unlink
unlink-Keeps gone v parent prev next =
    Post-if (Keeps gone v) (prev == 0) _ _
      (λ z. Post-bind (Keeps gone v) (get v parent) _ (λ p at. Keeps-set gone parent v p _ at refl))
      (λ nz. Post-bind (Keeps gone v) (get v prev) _ (λ p at. Keeps-set gone prev v p _ at refl))

-- a child taken out of its chain and freed
pub drop-Keeps :
    (v : Vfs) (parent prev next child : ℕ)
    → Post
        (StateKeeps child v)
        (unlink v parent prev next >>= λ v'. some (pos 0, set_node child none v'))
drop-Keeps v parent prev next child =
    Post-bind (StateKeeps child v) (unlink v parent prev next) _ λ v' e.
      Keeps-trans (rw e at (unlink-Keeps child v parent prev next)) (Keeps-over child v' none)
