-- ===== src/Vfs/Tree.antt =====
-- The tree that the nodes of vfs.c stand for: `cs d` are the children of `d` in the order of their links,
-- and `depth` counts the steps up to the root.
pub mod Find
pub mod Protect
pub mod Paths
pub mod Links
pub mod Grow
pub mod Add
pub mod Create
pub mod Cut
pub mod Unlink
pub mod Remove
pub mod Start
pub mod Write
pub mod Run
mod Tests
use mathlib.Core.Option
use keyhole_os.Prelude.{
  ℕ, zero, suc, ◌+◌, ◌<◌, ◌≡◌, ◌≢◌, refl, sym, ap, ◌∙◌, Bool, true, false, ◌||◌, Option, none, some,
  ◌==◌, if◌then◌else◌, List, [], ◌∷◌, ◌++◌, length, Bool-cases, inl, inr, arith,
}
use keyhole_os.Vfs.{Node, Vfs, is_directory, get, set_node}
use keyhole_os.Vfs.Keeps.{is_dir, dir_of}

abbrev pub has : ℕ → List ℕ → Bool
has a [] = false
has a (x ∷ xs) = a == x || has a xs

abbrev pub Distinct : List ℕ → Type 0
Distinct [] = Unit {0}
Distinct (x ∷ xs) = (has x xs ≡ false) × Distinct xs

-- from `p` on the links lead through the live nodes `xs` to NULL
abbrev pub Siblings : Vfs → ℕ → List ℕ → Type 0
Siblings v p [] = p ≡ 0
Siblings v p (x ∷ xs) = (p ≡ x) × ((n : Node) × (get v x ≡ some n) × Siblings v n.next_sibling xs)

-- Every live node but the root is a child of its parent, once and of it alone, and lies deeper; files have no
-- children.
pub record IsTree (v : Vfs) (cs : ℕ → List ℕ) (depth : ℕ → ℕ) : Type 0 where
  pub top : is_dir v v.root ≡ true
  pub top_up : (n : Node) → get v v.root ≡ some n → n.parent ≡ v.root
  pub listed : (d : ℕ) (n : Node) → get v d ≡ some n → Siblings v n.first_child (cs d)
  pub empty : (d : ℕ) → get v d ≡ none → cs d ≡ []
  pub files : (d : ℕ) (n : Node) → get v d ≡ some n → is_directory n ≡ false → cs d ≡ []
  pub once : (d : ℕ) → Distinct (cs d)
  pub up : (d c : ℕ) (n : Node) → has c (cs d) ≡ true → get v c ≡ some n → n.parent ≡ d
  pub down : (c : ℕ) (n : Node) → get v c ≡ some n → c ≢ v.root → has c (cs n.parent) ≡ true
  pub deeper : (c : ℕ) (n : Node) → get v c ≡ some n → c ≢ v.root → depth n.parent < depth c
  pub rootless : (d : ℕ) → has v.root (cs d) ≡ false

-- a node but for its links to other nodes of a directory
abbrev pub unlinked : Node → Node
unlinked n = record n { first_child = 0; next_sibling = 0 }

abbrev pub Alike : Option Node → Option Node → Type 0
Alike o' o = Option.map unlinked o' ≡ Option.map unlinked o

pub Alike-some :
    (o' o : Option Node) (n' : Node)
    → Alike o' o
    → o' ≡ some n'
    → (n : Node) × (o ≡ some n) × (unlinked n' ≡ unlinked n)
Alike-some none o n' a e = absurd (cc)
Alike-some (some m') none n' a e = absurd (cc)
Alike-some (some m') (some n) n' a e =
    let same : m' ≡ n' = cc in (n, refl, ap unlinked (sym same) ∙ cc)

pub Alike-none : (o' o : Option Node) → Alike o' o → o' ≡ none → o ≡ none
Alike-none none none a e = refl
Alike-none none (some n) a e = absurd (cc)
Alike-none (some n) o a e = absurd (cc)

pub dir_of-Alike : (o' o : Option Node) → Alike o' o → dir_of o' ≡ dir_of o
dir_of-Alike none none e = refl
dir_of-Alike none (some n) e = absurd (cc)
dir_of-Alike (some n') none e = absurd (cc)
dir_of-Alike (some n') (some n) e = let u : unlinked n' ≡ unlinked n = cc in ap is_directory u

pub get-set_node :
    (q : ℕ) (o : Option Node) (v : Vfs) (a : ℕ)
    → (q == 0) ≡ false
    → get (set_node q o v) a ≡ (if a == q then o else get v a)
get-set_node q o v a nz = elim (Bool-cases (a == q)) [
  | inl e ↦ let null : (a == 0) ≡ false = ground arith in rw (e, null) refl
  | inr e ↦ rw e refl
]

pub nonnull : (q : ℕ) (v : Vfs) (n : Node) → get v q ≡ some n → (q == 0) ≡ false
nonnull q v n at = elim (Bool-cases (q == 0)) [
  | inl z ↦ let none_there : get v q ≡ none = rw z refl in absurd (cc)
  | inr nz ↦ nz
]

pub is_dir-live : (v : Vfs) (p : ℕ) → is_dir v p ≡ true → (n : Node) × (get v p ≡ some n)
is_dir-live v p d = live_of (get v p) refl d
  where
    live_of : (o : Option Node) → get v p ≡ o → dir_of o ≡ true → (n : Node) × (get v p ≡ some n)
    live_of none e d = absurd (cc)
    live_of (some n) e d = (n, e)

-- what stands in a chain is live
pub Siblings-live :
    (v : Vfs) (p : ℕ) (xs : List ℕ) (a : ℕ)
    → Siblings v p xs
    → has a xs ≡ true
    → (n : Node) × (get v a ≡ some n)
Siblings-live v p [] a s h = absurd (cc)
Siblings-live v p (x ∷ xs) a s h = elim (Bool-cases (a == x)) [
  | inl e ↦ let same : a ≡ x = ground arith in rw same (s.1.0, s.1.1)
  | inr e ↦ Siblings-live v s.1.0.next_sibling xs a s.1.2 (rw e at h)
]

-- A chain stays where the links of its nodes do.
pub Siblings-frame :
    (v v' : Vfs) (p : ℕ) (xs : List ℕ)
    → Siblings v p xs
    → ((a : ℕ) (n : Node)
        → has a xs ≡ true
        → get v a ≡ some n
        → (n' : Node) × (get v' a ≡ some n') × (n'.next_sibling ≡ n.next_sibling))
    → Siblings v' p xs
Siblings-frame v v' p [] s same = s
Siblings-frame v v' p (x ∷ xs) s same =
    let m = same x s.1.0 (ground arith) s.1.1 in
    (
      s.0,
      (
        m.0,
        m.1,
        rw m.2 (
            Siblings-frame v v' s.1.0.next_sibling xs s.1.2
              (λ a n h at. same a n (ground (arith, h)) at)),
      ),
    )

module _ {v : Vfs} {cs : ℕ → List ℕ} {depth : ℕ → ℕ} (t : IsTree v cs depth) where
  -- a directory that has a child is live, and so is the child
  pub child-live :
      (d c : ℕ)
      → has c (cs d) ≡ true
      → ((n : Node) × (get v d ≡ some n)) × ((n : Node) × (get v c ≡ some n))
  child-live d c h = pick (get v d) refl
    where
      pick :
          (o : Option Node)
          → get v d ≡ o
          → ((n : Node) × (get v d ≡ some n)) × ((n : Node) × (get v c ≡ some n))
      pick none at = absurd (let none_there = t.empty d at in cc)
      pick (some n) at = ((n, at), Siblings-live v n.first_child (cs d) c (t.listed d n at) h)

  -- a child is not its own directory
  pub child-ne : (d c : ℕ) → has c (cs d) ≡ true → c ≢ d
  child-ne d c h e =
      let live = (child-live d c h).1 in
      let parent = t.up d c live.0 h live.1 in
      let no_root : c ≢ v.root = λ r. (let out = t.rootless d in cc) in
      omega (arith, rw parent at (t.deeper c live.0 live.1 no_root), ap depth e)

  -- no node is a child of two directories
  pub parents_eq : (d e c : ℕ) → has c (cs d) ≡ true → has c (cs e) ≡ true → d ≡ e
  parents_eq d e c h k =
      let live = (child-live d c h).1 in sym (t.up d c live.0 h live.1) ∙ t.up e c live.0 k live.1

  pub root_live : (n : Node) × (get v v.root ≡ some n)
  root_live = is_dir-live v v.root t.top
