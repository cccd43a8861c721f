-- ===== src/Vmm/Entry.antt =====
-- The write of the last entry for an address in vmm.c: it changes the translation of its page alone.
use keyhole_os.Prelude.{
  ℕ, ◌/◌, ◌%◌, ◌^◌, ◌≤◌, ◌≡◌, ◌≢◌, refl, sym, ap, ◌∙◌, true, ◌&&◌, Option, none, some, ◌==◌, List,
  [], ◌∷◌, ◌++◌, length, arith, Bool-cases, inl, inr, length-append,
}
use mathlib.Core.List.{append_assoc}
use keyhole_os.Vmm.{
  Tables, Vmm, is_present, address, set_entry, set_page_entry, vmm_get_phys, l4_index, l3_index,
  l2_index, l1_index,
}
use keyhole_os.Vmm.Descent.{
  descend, IsPath, IsPath-append, entry_in, IsTree, descend-append, table_path, translated,
  vmm_get_phys-leaf,
}

abbrev pub page_of : ℕ → ℕ
page_of virt = virt / 4096 % 2 ^ 36

pub table_path-IsPath : (virt : ℕ) → IsPath (table_path virt)
table_path-IsPath virt = omega arith

-- The indices of an address tell its page.
same_page :
    (w virt : ℕ)
    → table_path w ≡ table_path virt
    → l1_index w ≡ l1_index virt
    → page_of w ≡ page_of virt
same_page w virt h i1 =
    let i4 : l4_index w ≡ l4_index virt = cc in
    let i3 : l3_index w ≡ l3_index virt = cc in
    let i2 : l2_index w ≡ l2_index virt = cc in omega arith

pub table_path-same : (w virt : ℕ) → page_of w ≡ page_of virt → table_path w ≡ table_path virt
table_path-same w virt same =
    let i4 : l4_index w ≡ l4_index virt = omega arith in
    let i3 : l3_index w ≡ l3_index virt = omega arith in
    let i2 : l2_index w ≡ l2_index virt = omega arith in rw (i4, i3, i2) refl

-- a write of the entry for an address, in the table that its path leads to
module _ (s : Vmm) (v : IsTree s) (virt e t : ℕ)
    (here : descend s.tables s.pml4 (table_path virt) ≡ some t) where
  abbrev changed : Tables
  changed = set_entry t (l1_index virt) e s.tables

  not_inner :
      (is : List ℕ) (u j : ℕ)
      → IsPath is
      → length is ≤ 2
      → descend s.tables s.pml4 is ≡ some u
      → changed u j ≡ s.tables u j
  not_inner is u j p less h = elim (Bool-cases (u == t && j == l1_index virt)) [
    | inl slot ↦
        let same_table : u ≡ t = ground arith in
        let lengths =
          ap length
            (v.apart is (table_path virt) t p (table_path-IsPath virt) (rw same_table at h) here) in
        absurd (omega (arith, lengths, less))
    | inr other ↦ rw other refl
  ]

  same_from :
      (from rest : List ℕ) (u : ℕ)
      → IsPath (from ++ rest)
      → descend s.tables s.pml4 from ≡ some u
      → descend changed u rest ≡ descend s.tables u rest
  unfolding descend
  same_from from [] u p h = refl
  same_from from (j ∷ rest) u p h =
      let parts = IsPath-append from (j ∷ rest) p in
      let count = length-append from (j ∷ rest) in
      let same = not_inner from u j parts.0 (omega (arith, count, p.short)) h in
      elim (Bool-cases (is_present (s.tables u j))) [
        | inr gone ↦ rw (same, gone) refl
        | inl there ↦
            let step : descend s.tables u (j ∷ []) ≡ some (address (s.tables u j)) =
              rw there refl in
            rw (same, there)
              (same_from (from ++ (j ∷ [])) rest (address (s.tables u j))
                (rw (append_assoc from (j ∷ []) rest) p)
                (descend-append s.tables s.pml4 u from (j ∷ []) h ∙ step))
      ]

  same_paths : (is : List ℕ) → IsPath is → descend changed s.pml4 is ≡ descend s.tables s.pml4 is
  unfolding descend
  same_paths is p = same_from [] is s.pml4 p refl

  pub changed-IsTree : IsTree (set_page_entry t virt e s)
  unfolding set_page_entry
  changed-IsTree = record {
    apart = λ is js u p q h h'.
        v.apart is js u p q (sym (same_paths is p) ∙ h) (sym (same_paths js q) ∙ h');
    taken = λ is u p h. v.taken is u p (sym (same_paths is p) ∙ h);
    reserved = v.reserved;
    off_bitmap = λ is u p h. v.off_bitmap is u p (sym (same_paths is p) ∙ h);
    pages = v.pages;
    physical = v.physical;
  }

  pub get_here :
      (w : ℕ)
      → page_of w ≡ page_of virt
      → vmm_get_phys w (set_page_entry t virt e s) ≡ translated e w
  unfolding set_page_entry
  get_here w same =
      let i1 : l1_index w ≡ l1_index virt = omega arith in
      let same_path = table_path-same w virt same in
      let at = same_paths (table_path virt) (table_path-IsPath virt) ∙ here in
      let self : (t == t && l1_index virt == l1_index virt) ≡ true = ground arith in
      vmm_get_phys-leaf w (record s { tables = changed; flushed = virt ∷ s.flushed })
      ∙ rw (same_path, i1, at, self) refl

  other_leaf :
      (w : ℕ) (o : Option ℕ)
      → page_of w ≢ page_of virt
      → descend s.tables s.pml4 (table_path w) ≡ o
      → entry_in changed o (l1_index w) ≡ entry_in s.tables o (l1_index w)
  other_leaf w none other h = refl
  other_leaf w (some u) other h = elim (Bool-cases (u == t && l1_index w == l1_index virt)) [
    | inl slot ↦
        let same_table : u ≡ t = ground arith in
        let same_index : l1_index w ≡ l1_index virt = ground arith in
        let same_path =
          v.apart (table_path w) (table_path virt) t (table_path-IsPath w) (table_path-IsPath virt)
            (rw same_table at h) here in
        absurd (other (same_page w virt same_path same_index))
    | inr apart ↦ rw apart refl
  ]

  pub get_other :
      (w : ℕ)
      → page_of w ≢ page_of virt
      → vmm_get_phys w (set_page_entry t virt e s) ≡ vmm_get_phys w s
  unfolding set_page_entry
  get_other w other =
      vmm_get_phys-leaf w (record s { tables = changed; flushed = virt ∷ s.flushed })
      ∙ ap (λ e. translated e w)
          (ap (λ o. entry_in changed o (l1_index w))
              (same_paths (table_path w) (table_path-IsPath w))
            ∙ other_leaf w (descend s.tables s.pml4 (table_path w)) other refl)
      ∙ sym (vmm_get_phys-leaf w s)
