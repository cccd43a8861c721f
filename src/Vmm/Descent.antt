-- ===== src/Vmm/Descent.antt =====
-- Which table a path of indices leads to in the page tables of vmm.c, and that no other path does.
use keyhole_os.Prelude.{
  ℕ, ◌+◌, ◌*◌, ◌/◌, ◌%◌, ◌^◌, ◌<◌, ◌≤◌, ◌≡◌, refl, Option, none, some, if◌then◌else◌, List, [], ◌∷◌,
  ◌++◌, length, length-append, arith, Bool-cases, inl, inr,
}
use keyhole_os.Pmm.{Pmm}
use keyhole_os.Pmm.Pages
use keyhole_os.Pmm.Pages.{used}
use keyhole_os.Word.{page-bit_or}
use keyhole_os.Vmm.{
  Tables, Vmm, bitmap_start, is_present, address, l4_index, l3_index, l2_index, l1_index,
  vmm_get_phys,
}

unfoldable pub descend : Tables → (table : ℕ) → List ℕ → Option ℕ
descend m t [] = some t
descend m t (i ∷ is) =
    let deeper = descend m (address (m t i)) is in if is_present (m t i) then deeper else none

-- an index for each level but the last
abbrev pub IsIndices : List ℕ → Type 0
IsIndices [] = Unit {0}
IsIndices (i ∷ is) = (i < 512) × IsIndices is

pub record IsPath (is : List ℕ) : Type 0 where
  pub short : length is ≤ 3
  pub in_range : IsIndices is

abbrev pub table_path : ℕ → List ℕ
table_path virt = l4_index virt ∷ l3_index virt ∷ l2_index virt ∷ []

-- entry `j` of a table that may not be there
abbrev pub entry_in : Tables → Option ℕ → ℕ → ℕ
entry_in m none j = 0
entry_in m (some t) j = m t j

-- the entry that the code reads last for an address
abbrev pub leaf : Tables → (root : ℕ) → (path : List ℕ) → ℕ → ℕ
leaf m root path j = entry_in m (descend m root path) j

-- what an entry for a page translates an address to
abbrev pub translated : (entry virt : ℕ) → ℕ
translated e virt = if is_present e then address e + virt % 2 ^ 12 else 0

pub vmm_get_phys-leaf :
    (virt : ℕ) (s : Vmm)
    → vmm_get_phys virt s ≡ translated (leaf s.tables s.pml4 (table_path virt) (l1_index virt)) virt
unfolding vmm_get_phys descend
vmm_get_phys-leaf virt s =
    let e4 = s.tables s.pml4 (l4_index virt) in
    let e3 = s.tables (address e4) (l3_index virt) in
    let e2 = s.tables (address e3) (l2_index virt) in
    let e1 = s.tables (address e2) (l1_index virt) in
    let joined = page-bit_or (address e1) (virt % 2 ^ 12) (omega arith) (omega arith) in
    elim (Bool-cases (is_present e4)) [
      | inr no4 ↦ rw no4 refl
      | inl at4 ↦ elim (Bool-cases (is_present e3)) [
        | inr no3 ↦ rw (at4, no3) refl
        | inl at3 ↦ elim (Bool-cases (is_present e2)) [
          | inr no2 ↦ rw (at4, at3, no2) refl
          | inl at2 ↦ rw (at4, at3, at2) (ground (arith, joined))
        ]
      ]
    ]

-- page `q` holds a byte of the bitmap
abbrev pub IsBitmap : Pmm → ℕ → Type 0
IsBitmap p q = (0x300 ≤ q) × (q * 4096 < bitmap_start + p.total_pages / 8)

-- The tables stand apart: each is a page of its own, marked as in use, and one path leads to it. The pages of the
-- bitmap are in use, and no table is on them.
pub record IsTree (s : Vmm) : Type 0 where
  pub apart :
      (is js : List ℕ) (t : ℕ)
      → IsPath is
      → IsPath js
      → descend s.tables s.pml4 is ≡ some t
      → descend s.tables s.pml4 js ≡ some t
      → is ≡ js
  pub taken :
      (is : List ℕ) (t : ℕ)
      → IsPath is
      → descend s.tables s.pml4 is ≡ some t
      → (used s.pmm (t / 4096) ≡ 1) × (t % 4096 ≡ 0)
  pub reserved : (q : ℕ) → IsBitmap s.pmm q → used s.pmm q ≡ 1
  pub off_bitmap :
      (is : List ℕ) (t : ℕ)
      → IsPath is
      → descend s.tables s.pml4 is ≡ some t
      → ¬ IsBitmap s.pmm (t / 4096)
  pub pages : Pages.IsValid s.pmm
  pub physical : s.pmm.total_pages ≤ 2 ^ 40

pub descend-append :
    (m : Tables) (t u : ℕ) (is js : List ℕ)
    → descend m t is ≡ some u
    → descend m t (is ++ js) ≡ descend m u js
unfolding descend
descend-append m t u [] js h = ground arith
descend-append m t u (i ∷ is) js h = elim (Bool-cases (is_present (m t i))) [
  | inl at ↦ rw at (descend-append m (address (m t i)) u is js (rw at at h))
  | inr absent ↦ let gone : none ≡ some u = rw absent at h in cc
]

-- Tables whose entries lead the same way have the same paths.
pub descend-same :
    (m m' : Tables)
    → ((t i : ℕ)
        → (is_present (m' t i) ≡ is_present (m t i)) × (address (m' t i) ≡ address (m t i)))
    → (is : List ℕ) (t : ℕ) → descend m' t is ≡ descend m t is
unfolding descend
descend-same m m' h [] t = refl
descend-same m m' h (i ∷ is) t =
    rw ((h t i).0, (h t i).1, descend-same m m' h is (address (m t i))) refl

IsIndices-append : (is js : List ℕ) → IsIndices (is ++ js) → IsIndices is × IsIndices js
IsIndices-append [] js h = (tt, h)
IsIndices-append (i ∷ is) js h = let rest = IsIndices-append is js h.1 in ((h.0, rest.0), rest.1)

pub IsPath-append : (is js : List ℕ) → IsPath (is ++ js) → IsPath is × IsIndices js
IsPath-append is js p =
    let parts = IsIndices-append is js p.in_range in
    let count = length-append is js in
    (record { short = omega (arith, p.short); in_range = parts.0 }, parts.1)
