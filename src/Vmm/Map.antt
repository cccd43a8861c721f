-- ===== src/Vmm/Map.antt =====
-- `vmm_map` and `vmm_unmap` of vmm.c: a page that is mapped is translated to its frame, one that is
-- unmapped to none, and no other translation changes.
use keyhole_os.Prelude.{
  ℕ, suc, ◌+◌, ◌%◌, ◌^◌, ◌<◌, ◌≡◌, ◌≢◌, refl, sym, ap, ◌∙◌, true, Option, none, some, [], ◌∷◌,
  arith, Bool-cases, inl, inr, bit_or,
}
use keyhole_os.Pmm.Pages.{used}
use keyhole_os.Word.{page-bit_or}
use keyhole_os.Vmm.{
  Vmm, is_present, address, next_table, set_page_entry, vmm_map, vmm_unmap, vmm_get_phys, l4_index,
  l3_index, l2_index, l1_index,
}
use keyhole_os.Vmm.Descent.{descend, IsTree, table_path, translated, vmm_get_phys-leaf}
use keyhole_os.Vmm.Level.{HasPages, next_table-Level}
use keyhole_os.Vmm.Entry.{
  page_of, table_path-IsPath, table_path-same, changed-IsTree, get_here, get_other,
}

-- What `vmm_map` has done before its last write: the table for the address is there.
record Opened (virt k : ℕ) (s s' : Vmm) (t : ℕ) : Type 0 where
  tree : IsTree s'
  found : descend s'.tables s'.pml4 (table_path virt) ≡ some t
  kept : (w : ℕ) → vmm_get_phys w s' ≡ vmm_get_phys w s
  room : HasPages k s'.pmm
  taken_kept : (q : ℕ) → used s.pmm q ≡ 1 → used s'.pmm q ≡ 1

-- The entry that is written translates to the frame.
mapped :
    (flags phys w : ℕ)
    → phys % 4096 ≡ 0
    → phys < 2 ^ 52
    → flags < 4096
    → flags % 2 ≡ 1
    → translated (bit_or phys flags) w ≡ phys + w % 4096
mapped flags phys w aligned low small present =
    let e = page-bit_or phys flags aligned small in
    let there : is_present (bit_or phys flags) ≡ true = ground (arith, e) in
    rw there (omega (arith, e))

module _ (virt flags k : ℕ) (s : Vmm) (v : IsTree s)
    (room : HasPages (suc (suc (suc k))) s.pmm) where
  abbrev r3 : ℕ × Vmm
  r3 = next_table s.pml4 (l4_index virt) flags s

  abbrev r2 : ℕ × Vmm
  r2 = next_table r3.0 (l3_index virt) flags r3.1

  abbrev r1 : ℕ × Vmm
  r1 = next_table r2.0 (l2_index virt) flags r2.1

  opened : Opened virt k s r1.1 r1.0
  unfolding descend
  opened =
      let level3 =
        next_table-Level s [] s.pml4 (l4_index virt) (suc (suc k)) flags v (omega arith)
          (omega arith) refl room in
      let level2 =
        next_table-Level r3.1 (l4_index virt ∷ []) r3.0 (l3_index virt) (suc k) flags level3.tree
          (omega arith) (omega arith) level3.found level3.room in
      let level1 =
        next_table-Level r2.1 (l4_index virt ∷ l3_index virt ∷ []) r2.0 (l2_index virt) k flags
          level2.tree (omega arith) (omega arith) level2.found level2.room in
      record {
        tree = level1.tree;
        found = level1.found;
        kept = λ w.
            (let p = table_path-IsPath w in
              let index : l1_index w < 512 = omega arith in
              vmm_get_phys-leaf w r1.1
              ∙ ap (λ e. translated e w)
                  (level1.leaves (table_path w) (l1_index w) p refl index
                    ∙ level2.leaves (table_path w) (l1_index w) p refl index
                    ∙ level3.leaves (table_path w) (l1_index w) p refl index)
              ∙ sym (vmm_get_phys-leaf w s));
        room = level1.room;
        taken_kept = λ q h. level1.taken_kept q (level2.taken_kept q (level3.taken_kept q h));
      }

  -- `vmm_map` with any number of pages left, of which it takes three at most
  pub vmm_map-room :
      (phys : ℕ)
      → phys % 4096 ≡ 0
      → phys < 2 ^ 52
      → flags < 4096
      → flags % 2 ≡ 1
      → let s' = vmm_map virt phys flags s in
        IsTree s'
        × HasPages k s'.pmm
        × ((q : ℕ) → used s.pmm q ≡ 1 → used s'.pmm q ≡ 1)
        × ((w : ℕ) → page_of w ≡ page_of virt → vmm_get_phys w s' ≡ phys + w % 4096)
        × ((w : ℕ) → page_of w ≢ page_of virt → vmm_get_phys w s' ≡ vmm_get_phys w s)
  unfolding vmm_map set_page_entry
  vmm_map-room phys aligned low small present =
      let o = opened in
      let e = bit_or phys flags in
      (
        changed-IsTree r1.1 o.tree virt e r1.0 o.found,
        o.room,
        o.taken_kept,
        λ w same.
            get_here r1.1 o.tree virt e r1.0 o.found w same
            ∙ mapped flags phys w aligned low small present,
        λ w other. get_other r1.1 o.tree virt e r1.0 o.found w other ∙ o.kept w,
      )

module _ (virt flags : ℕ) (s : Vmm) (v : IsTree s) (room : HasPages 3 s.pmm) where
  -- In tables that stand apart and off the bitmap, whose pages are in use, with three pages left, `vmm_map` of a frame below 2 ^ 52 with flags that
  -- have VMM_PRESENT translates each address of the page to its place in the frame, changes the
  -- translation of no other page, and leaves tables that stand apart and off the bitmap, each on a page marked as in use.
  pub vmm_map_lem :
      (phys : ℕ)
      → phys % 4096 ≡ 0
      → phys < 2 ^ 52
      → flags < 4096
      → flags % 2 ≡ 1
      → let s' = vmm_map virt phys flags s in
        IsTree s'
        × ((w : ℕ) → page_of w ≡ page_of virt → vmm_get_phys w s' ≡ phys + w % 4096)
        × ((w : ℕ) → page_of w ≢ page_of virt → vmm_get_phys w s' ≡ vmm_get_phys w s)
  vmm_map_lem phys aligned low small present =
      let (tree, pages, kept, here, other) =
        vmm_map-room virt flags 0 s v room phys aligned low small present in
      (tree, here, other)

-- what `vmm_unmap` does once it has the table, or not
abbrev unmapped : (virt : ℕ) → Vmm → Option ℕ → Vmm
unmapped virt s none = s
unmapped virt s (some t) = set_page_entry t virt 0 s

vmm_unmap-descend :
    (virt : ℕ) (s : Vmm)
    → vmm_unmap virt s ≡ unmapped virt s (descend s.tables s.pml4 (table_path virt))
unfolding vmm_unmap descend
vmm_unmap-descend virt s =
    let e4 = s.tables s.pml4 (l4_index virt) in
    let e3 = s.tables (address e4) (l3_index virt) in
    let e2 = s.tables (address e3) (l2_index virt) in
    elim (Bool-cases (is_present e4)) [
      | inr no4 ↦ rw no4 refl
      | inl at4 ↦ elim (Bool-cases (is_present e3)) [
        | inr no3 ↦ rw (at4, no3) refl
        | inl at3 ↦ elim (Bool-cases (is_present e2)) [
          | inr no2 ↦ rw (at4, at3, no2) refl
          | inl at2 ↦ rw (at4, at3, at2) refl
        ]
      ]
    ]

abbrev IsUnmapped : (virt : ℕ) (s s' : Vmm) → Type 0
IsUnmapped virt s s' =
    IsTree s'
    × ((w : ℕ) → page_of w ≡ page_of virt → vmm_get_phys w s' ≡ 0)
    × ((w : ℕ) → page_of w ≢ page_of virt → vmm_get_phys w s' ≡ vmm_get_phys w s)

unmapped-IsUnmapped :
    (virt : ℕ) (s : Vmm) (o : Option ℕ)
    → IsTree s
    → descend s.tables s.pml4 (table_path virt) ≡ o
    → IsUnmapped virt s (unmapped virt s o)
unmapped-IsUnmapped virt s none v h =
    (v, λ w same. vmm_get_phys-leaf w s ∙ rw (table_path-same w virt same, h) refl, λ w other. refl)
unmapped-IsUnmapped virt s (some t) v h = (
  changed-IsTree s v virt 0 t h,
  λ w same. get_here s v virt 0 t h w same,
  λ w other. get_other s v virt 0 t h w other,
)

-- In tables that stand apart `vmm_unmap` leaves no translation for the page, changes that of no other
-- page, and leaves the tables apart.
pub vmm_unmap_lem :
    (virt : ℕ) (s : Vmm)
    → IsTree s
    → let s' = vmm_unmap virt s in
      IsTree s'
      × ((w : ℕ) → page_of w ≡ page_of virt → vmm_get_phys w s' ≡ 0)
      × ((w : ℕ) → page_of w ≢ page_of virt → vmm_get_phys w s' ≡ vmm_get_phys w s)
vmm_unmap_lem virt s v =
    rw (vmm_unmap-descend virt s)
      (unmapped-IsUnmapped virt s (descend s.tables s.pml4 (table_path virt)) v refl)
