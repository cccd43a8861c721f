-- ===== src/Vmm/Blank.antt =====
-- Page tables of vmm.c with a top table alone, and no entry in it.
use keyhole_os.Prelude.{ℕ, ◌/◌, ◌%◌, ◌^◌, ◌≤◌, ◌≡◌, refl, some, List, [], ◌∷◌, arith}
use keyhole_os.Pmm.{Pmm}
use keyhole_os.Pmm.Pages
use keyhole_os.Pmm.Pages.{used}
use keyhole_os.Vmm.{Vmm}
use keyhole_os.Vmm.Descent.{descend, IsPath, IsBitmap, IsTree}

-- the top table at `top`, with no entry
abbrev pub blank : (top : ℕ) → Pmm → Vmm
blank top p = record { tables = λ t i. 0; pml4 = top; pmm = p; flushed = [] }

module _ (top : ℕ) (p : Pmm) (page_used : used p (top / 4096) ≡ 1) (whole : top % 4096 ≡ 0)
    (reserved : (q : ℕ) → IsBitmap p q → used p q ≡ 1) (off : ¬ IsBitmap p (top / 4096)) where
  blank_apart :
      (is js : List ℕ) (t : ℕ)
      → IsPath is
      → IsPath js
      → descend (blank top p).tables top is ≡ some t
      → descend (blank top p).tables top js ≡ some t
      → is ≡ js
  unfolding descend
  blank_apart [] [] t q r h k = refl
  blank_apart (i ∷ is) js t q r h k = cc
  blank_apart [] (j ∷ js) t q r h k = cc

  blank_taken :
      (is : List ℕ) (t : ℕ)
      → IsPath is
      → descend (blank top p).tables top is ≡ some t
      → (used p (t / 4096) ≡ 1) × (t % 4096 ≡ 0)
  unfolding descend
  blank_taken [] t q h = let at : t ≡ top = ground (arith, h) in rw at (page_used, whole)
  blank_taken (i ∷ is) t q h = cc

  blank_off :
      (is : List ℕ) (t : ℕ)
      → IsPath is
      → descend (blank top p).tables top is ≡ some t
      → ¬ IsBitmap p (t / 4096)
  unfolding descend
  blank_off [] t q h b = let at : t ≡ top = ground (arith, h) in off (rw at at b)
  blank_off (i ∷ is) t q h b = absurd (cc)

  pub blank-IsTree : Pages.IsValid p → p.total_pages ≤ 2 ^ 40 → IsTree (blank top p)
  blank-IsTree v physical = record {
    apart = blank_apart;
    taken = blank_taken;
    reserved = reserved;
    off_bitmap = blank_off;
    pages = v;
    physical = physical;
  }
