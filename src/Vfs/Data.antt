-- ===== src/Vfs/Data.antt =====
-- `vfs_write` and `vfs_cat` of vfs.c: what is written is read back.
use keyhole_os.Prelude.{
  ℕ, ◌≡◌, ◌≢◌, refl, ap, Bool, true, false, ◌&&◌, not, Option, none, some, ◌==◌, List, [], ◌∷◌,
  ◌++◌, length, length-append, take, Bool-cases, inl, inr, arith,
}
use keyhole_os.Prelude.Int.{pos}
use keyhole_os.Vfs.{Node, Vfs, is_directory, set_node, is_protected, resolve_path}
use keyhole_os.Vfs.Paths.{bare, SameTree, resolve_path-SameTree}
use keyhole_os.Vfs.Calls.{minus, written, vfs_write, vfs_cat}

-- the size field counts the text
abbrev pub SizeIs : ℕ → Option (List ℕ) → Type 0
SizeIs size none = Unit {0}
SizeIs size (some old) = size ≡ length old

-- the text that a file holds after a write
pub after : (append : Bool) → Option (List ℕ) → List ℕ → List ℕ
after append none text = text
after true (some old) text = old ++ text
after false (some old) text = text

take-length {ℓ} : {A : Type ℓ} (xs : List A) → take (length xs) xs ≡ xs
take-length [] = refl
take-length (x ∷ xs) = ap (λ l. x ∷ l) (take-length xs)

content-written :
    (append : Bool) (text : List ℕ) (n : Node)
    → SizeIs n.data_size n.content
    → (written append text n).content ≡ some (after append n.content text)
unfolding written after
content-written append text n c = split append n.content n.data_size c
  where
    split :
        (append : Bool) (content : Option (List ℕ)) (size : ℕ)
        → SizeIs size content
        → (written append text (record n { content = content; data_size = size })).content
          ≡ some (after append content text)
    split true none size c = refl
    split false none size c = refl
    split true (some old) size c = rw (c, take-length old) refl
    split false (some old) size c = refl

SizeIs-written :
    (append : Bool) (text : List ℕ) (n : Node)
    → SizeIs n.data_size n.content
    → SizeIs (written append text n).data_size (written append text n).content
unfolding written
SizeIs-written append text n c = split append n.content n.data_size c
  where
    split :
        (append : Bool) (content : Option (List ℕ)) (size : ℕ)
        → SizeIs size content
        → (let m = written append text (record n { content = content; data_size = size }) in
            SizeIs m.data_size m.content)
    split true none size c = refl
    split false none size c = refl
    split true (some old) size c = rw (c, take-length old) (omega (arith, length-append old text))
    split false (some old) size c = refl

bare-written : (append : Bool) (text : List ℕ) (n : Node) → bare (written append text n) ≡ bare n
unfolding written
bare-written append text n = split append n.content
  where
    split :
        (append : Bool) (content : Option (List ℕ))
        → bare (written append text (record n { content = content })) ≡ bare n
    split true none = refl
    split false none = refl
    split true (some old) = refl
    split false (some old) = refl

pub is_directory-written :
    (append : Bool) (text : List ℕ) (n : Node)
    → is_directory (written append text n) ≡ is_directory n
is_directory-written append text n = ap is_directory (bare-written append text n)

-- the nodes after a write
abbrev pub after_write : ℕ → Bool → List ℕ → Node → Vfs → Vfs
after_write node append text n v = set_node node (some (written append text n)) v

pub SameTree-write :
    (node : ℕ) (append : Bool) (text : List ℕ) (n : Node) (v : Vfs)
    → v.nodes node ≡ some n
    → SameTree v (after_write node append text n v).nodes
SameTree-write node append text n v h p = elim (Bool-cases (p == node)) [
  | inl e ↦ let q : p ≡ node = ground arith in rw (e, q, h) (ap some (bare-written append text n))
  | inr ne ↦ rw ne refl
]

module _ (f : ℕ) (v : Vfs) (fresh : ℕ) (path text : List ℕ) (append : Bool) (node : ℕ) (n : Node)
    (found : resolve_path f v path ≡ some node) (real : node ≢ 0) (at : v.nodes node ≡ some n) where
  nz : (node == 0) ≡ false
  nz = ground arith

  -- Without sudo mode a write to a protected file is refused with -3 and changes nothing.
  pub vfs_write_denied :
      is_directory n ≡ false
      → is_protected f v node ≡ some true
      → v.sudo_mode ≡ false
      → vfs_write f v fresh path text append ≡ some (minus 3, v)
  unfolding vfs_write
  vfs_write_denied d p s = rw (found, nz, at, d, p, s) refl

  run_write :
      (protected : Bool)
      → is_directory n ≡ false
      → is_protected f v node ≡ some protected
      → (protected && not v.sudo_mode) ≡ false
      → vfs_write f v fresh path text append ≡ some (pos 0, after_write node append text n v)
  unfolding vfs_write
  run_write protected d p s = rw (found, nz, at, d, p, s) refl

  same_path :
      (other : List ℕ)
      → resolve_path f (after_write node append text n v) other ≡ resolve_path f v other
  same_path =
      resolve_path-SameTree v (after_write node append text n v).nodes
        (SameTree-write node append text n v at) f

  cat_back :
      is_directory n ≡ false
      → SizeIs n.data_size n.content
      → vfs_cat f (after_write node append text n v) path
        ≡ some (pos 0, some (some (after append n.content text)))
  unfolding vfs_cat
  cat_back d c =
      let self : (node == node) ≡ true = ground arith in
      rw
        (
          same_path path,
          found,
          nz,
          self,
          is_directory-written append text n,
          d,
          content-written append text n c,
        )
        refl

  cat_other :
      (other : List ℕ) (q : ℕ)
      → resolve_path f v other ≡ some q
      → q ≢ node
      → vfs_cat f (after_write node append text n v) other ≡ vfs_cat f v other
  unfolding vfs_cat
  cat_other other q e ne =
      let far : (q == node) ≡ false = ground arith in rw (same_path other, e, far) refl

  -- A write to a file that is not protected, or in sudo mode, answers 0. Then `vfs_cat` of the path
  -- gives the text, behind the old one where that is kept, the size field counts it, and a path to
  -- any other node reads as before.
  pub vfs_cat-vfs_write :
      (protected : Bool)
      → is_directory n ≡ false
      → is_protected f v node ≡ some protected
      → (protected && not v.sudo_mode) ≡ false
      → SizeIs n.data_size n.content
      → let v' = after_write node append text n v in
        (vfs_write f v fresh path text append ≡ some (pos 0, v'))
        × (vfs_cat f v' path ≡ some (pos 0, some (some (after append n.content text))))
        × SizeIs (written append text n).data_size (written append text n).content
        × ((other : List ℕ) (q : ℕ)
            → resolve_path f v other ≡ some q
            → q ≢ node
            → vfs_cat f v' other ≡ vfs_cat f v other)
  vfs_cat-vfs_write protected d p s c =
      (run_write protected d p s, cat_back d c, SizeIs-written append text n c, cat_other)
