-- ===== src/Vmm/Table.antt =====
-- A new table of vmm.c: the tables that were there stay where they are, and it is empty.
use keyhole_os.Prelude.{
  ℕ, ◌/◌, ◌<◌, ◌≤◌, ◌≡◌, ◌≢◌, ◌⊎◌, refl, sym, ap, ◌∙◌, true, false, ◌&&◌, Option, none, some, ◌==◌,
  List, [], ◌∷◌, ◌++◌, length, arith, Bool-cases, inl, inr,
}
use mathlib.Core.List.{append_assoc}
use keyhole_os.Pmm.Pages.{used}
use keyhole_os.Vmm.{Tables, Vmm, is_present, address, set_entry, clear_table}
use keyhole_os.Vmm.Descent.{
  descend, IsIndices, IsPath, IsPath-append, entry_in, leaf, IsTree, descend-append,
}

-- a path of one index more
abbrev pub IsInner : List ℕ → Type 0
IsInner is = IsPath is × (length is ≤ 2)

module _ (s : Vmm) (v : IsTree s) (path : List ℕ) (t i e n : ℕ) (inner : IsInner path)
    (at : i < 512) (here : descend s.tables s.pml4 path ≡ some t)
    (absent : is_present (s.tables t i) ≡ false) (free : used s.pmm (n / 4096) ≡ 0)
    (present : is_present e ≡ true) (leads : address e ≡ n) where
  abbrev pub after : Tables
  after = set_entry t i e (clear_table n s.tables)

  pub new_page : (is : List ℕ) (u : ℕ) → IsPath is → descend s.tables s.pml4 is ≡ some u → u ≢ n
  new_page is u p h same =
      let one = (v.taken is u p h).0 in
      let zero_there : used s.pmm (u / 4096) ≡ 0 = rw same free in
      absurd (omega (arith, one, zero_there))

  empty : (k : ℕ) → k < 512 → is_present (after n k) ≡ false
  empty k lt = let far = new_page path t inner.0 here in ground (arith, far)

  other_entry : (u j : ℕ) → u ≢ n → (u == t && j == i) ≡ false → after u j ≡ s.tables u j
  other_entry u j far apart = ground arith

  -- what a path from a table that was there leads to now
  abbrev Leads : (from rest : List ℕ) → ℕ → Type 0
  Leads from rest u =
      (descend after u rest ≡ descend s.tables u rest)
      ⊎ ((from ++ rest ≡ path ++ (i ∷ []))
          × (descend after u rest ≡ some n)
          × (descend s.tables u rest ≡ none))

  -- through the new entry
  entered : (rest : List ℕ) → IsIndices rest → Leads path (i ∷ rest) t
  unfolding descend
  entered [] r =
      let new_entry : after t i ≡ e = ground arith in
      inr (refl, rw (new_entry, present, leads) refl, rw absent refl)
  entered (k ∷ rest) r =
      let new_entry : after t i ≡ e = ground arith in
      inl (rw (new_entry, present, leads, empty k r.0, absent) refl)

  reached :
      (from rest : List ℕ) (u : ℕ)
      → IsPath (from ++ rest)
      → descend s.tables s.pml4 from ≡ some u
      → Leads from rest u
  unfolding descend
  reached from [] u p h = inl refl
  reached from (j ∷ rest) u p h =
      let parts = IsPath-append from (j ∷ rest) p in
      elim (Bool-cases (u == t && j == i)) [
        | inl slot ↦
            let same_table : u ≡ t = ground arith in
            let same_index : j ≡ i = ground arith in
            let same_path : from ≡ path =
              v.apart from path t parts.0 inner.0 (rw same_table at h) here in
            rw (same_path, same_table, same_index) (entered rest (parts.1).1)
        | inr other ↦
            let kept = other_entry u j (new_page from u parts.0 h) other in
            elim (Bool-cases (is_present (s.tables u j))) [
              | inr gone ↦ inl (rw (kept, gone) refl)
              | inl there ↦
                  let step : descend s.tables u (j ∷ []) ≡ some (address (s.tables u j)) =
                    rw there refl in
                  let one_more =
                    reached (from ++ (j ∷ [])) rest (address (s.tables u j))
                      (rw (append_assoc from (j ∷ []) rest) p)
                      (descend-append s.tables s.pml4 u from (j ∷ []) h ∙ step) in
                  let regrouped = rw (append_assoc from (j ∷ []) rest) at one_more in
                  rw (kept, there) regrouped
            ]
      ]

  pub descend-after : (is : List ℕ) → IsPath is → Leads [] is s.pml4
  unfolding descend
  descend-after is p = reached [] is s.pml4 p refl

  kept_entry :
      (is : List ℕ) (j : ℕ) (o : Option ℕ)
      → IsPath is
      → length is ≡ 3
      → descend s.tables s.pml4 is ≡ o
      → entry_in after o j ≡ entry_in s.tables o j
  kept_entry is j none p three h = refl
  kept_entry is j (some u) p three h = elim (Bool-cases (u == t && j == i)) [
    | inl slot ↦
        let same_table : u ≡ t = ground arith in
        let same_path = ap length (v.apart is path t p inner.0 (rw same_table at h) here) in
        absurd (omega (arith, same_path, three, inner.1))
    | inr other ↦ other_entry u j (new_page is u p h) other
  ]

  -- No entry for a page changes.
  pub leaf-after :
      (is : List ℕ) (j : ℕ)
      → IsPath is
      → length is ≡ 3
      → j < 512
      → leaf after s.pml4 is j ≡ leaf s.tables s.pml4 is j
  leaf-after is j p three lt = elim (descend-after is p) [
    | inl same ↦ rw same (kept_entry is j (descend s.tables s.pml4 is) p three refl)
    | inr (made, new, none_before) ↦
        let far = new_page path t inner.0 here in rw (new, none_before) (ground (arith, far))
  ]

  -- One path leads to each table, with the new one among them.
  pub apart-after :
      (is js : List ℕ) (u : ℕ)
      → IsPath is
      → IsPath js
      → descend after s.pml4 is ≡ some u
      → descend after s.pml4 js ≡ some u
      → is ≡ js
  apart-after is js u p q h k = elim (descend-after is p) [
    | inl same ↦ elim (descend-after js q) [
      | inl same' ↦ v.apart is js u p q (sym same ∙ h) (sym same' ∙ k)
      | inr (made', new', none_before') ↦
          absurd (new_page is u p (sym same ∙ h) (ground (arith, new', k)))
    ]
    | inr (made, new, none_before) ↦ elim (descend-after js q) [
      | inl same' ↦ absurd (new_page js u q (sym same' ∙ k) (ground (arith, new, h)))
      | inr (made', new', none_before') ↦ made ∙ sym made'
    ]
  ]

  -- Each table was there, or is the new one.
  pub table-after :
      (is : List ℕ) (u : ℕ)
      → IsPath is
      → descend after s.pml4 is ≡ some u
      → (descend s.tables s.pml4 is ≡ some u) ⊎ (u ≡ n)
  table-after is u p h = elim (descend-after is p) [
    | inl same ↦ inl (sym same ∙ h)
    | inr (made, new, none_before) ↦ inr (ground (arith, new, h))
  ]

  pub path-after : descend after s.pml4 path ≡ some t
  path-after = elim (descend-after path inner.0) [
    | inl same ↦ same ∙ here
    | inr (made, new, none_before) ↦ let gone : none ≡ some t = sym none_before ∙ here in cc
  ]

  pub entry-after : after t i ≡ e
  entry-after = ground arith
