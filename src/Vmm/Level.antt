-- ===== src/Vmm/Level.antt =====
-- One level of `vmm_map` of vmm.c: the table of the next level is there, the tables still stand apart,
-- and no entry for a page changes.
use keyhole_os.Prelude.{
  ℕ, zero, suc, ◌+◌, ltb, ◌/◌, ◌%◌, ◌^◌, ◌<◌, ◌≤◌, ◌≡◌, ◌≢◌, refl, sym, ap, ◌∙◌, true, false, ◌&&◌,
  Option, none, some, ◌==◌, List, [], ◌∷◌, ◌++◌, length, arith, Bool-cases, inl, inr, bit_or,
}
use mathlib.Core.Path.{fun_ext}
use keyhole_os.Pmm.{Pmm, alloc}
use keyhole_os.Pmm.Pages.{used, IsValid}
use keyhole_os.Pmm.Alloc.{Search, full, page, Took, capacity, alloc-Search}
use keyhole_os.Word.{page-bit_or, bit_or-page, bit_or_last}
use keyhole_os.Vmm.{
  Vmm, is_present, is_user, address, set_entry, clear_table, clear_bitmap, on_page, bitmap_start,
  make_table, fill_entry, mark_entry, next_table,
}
use keyhole_os.Vmm.Descent.{
  descend, IsPath, IsBitmap, entry_in, leaf, IsTree, descend-append, descend-same,
}
use keyhole_os.Vmm.Table

-- the next `k` calls of `pmm_alloc` answer a page
abbrev pub HasPages : ℕ → Pmm → Type 0
HasPages zero p = Unit {0}
HasPages (suc k) p = ((alloc p).0 ≢ 0) × HasPages k (alloc p).1

HasPages-less : (k : ℕ) (p : Pmm) → HasPages (suc k) p → HasPages k p
HasPages-less zero p h = tt
HasPages-less (suc k) p h = (h.0, HasPages-less k (alloc p).1 h.1)

-- a page that `pmm_alloc` answers
pub record NewPage (p p' : Pmm) (n : ℕ) : Type 0 where
  pub free : used p (n / 4096) ≡ 0
  pub whole : n % 4096 ≡ 0
  pub low : n < 2 ^ 52
  pub took : Took (n / 4096) p p'

pub alloc-NewPage :
    (p : Pmm)
    → IsValid p
    → p.total_pages ≤ 2 ^ 40
    → (alloc p).0 ≢ 0
    → NewPage p (alloc p).1 (alloc p).0
alloc-NewPage p v h ne = found (alloc-Search v) ne
  where
    found : {r : ℕ × Pmm} → Search p 0 (capacity p) r → r.0 ≢ 0 → NewPage p r.1 r.0
    found (full none_left) ne = absurd (ne refl)
    found (page {r} q lo hi z below a t) ne =
        let at : r.0 / 4096 ≡ q = omega (arith, a) in
        record { free = rw at z; whole = omega (arith, a); low = omega (arith, a); took = rw at t }

-- A table on a free page is none of the bitmap's.
clear_bitmap-off :
    (s : Vmm) (v : IsTree s) (n : ℕ) (p' : Pmm) → NewPage s.pmm p' n → clear_bitmap n p' ≡ p'
clear_bitmap-off s v n p' new = ap (λ b. record p' { bitmap = b }) (fun_ext same)
  where
    same : (j : ℕ) → (clear_bitmap n p').bitmap j ≡ p'.bitmap j
    same j = elim (Bool-cases (ltb j (p'.total_pages / 8) && on_page n (bitmap_start + j))) [
      | inr off ↦ rw off refl
      | inl on ↦
          let total = new.took.total in
          let whole = new.whole in
          let there : IsBitmap s.pmm (n / 4096) = ground (arith, on, total, whole) in
          let one = v.reserved (n / 4096) there in
          let zero_there = new.free in absurd (omega (arith, one, zero_there))
    ]

-- The tables and the translations after one step of `vmm_map`: the table at `path` is still at `t`.
pub record Step (path : List ℕ) (t k : ℕ) (s s' : Vmm) : Type 0 where
  pub tree : IsTree s'
  pub here : descend s'.tables s'.pml4 path ≡ some t
  pub leaves :
      (is : List ℕ) (j : ℕ)
      → IsPath is
      → length is ≡ 3
      → j < 512
      → leaf s'.tables s'.pml4 is j ≡ leaf s.tables s.pml4 is j
  pub same_root : s'.pml4 ≡ s.pml4
  pub room : HasPages k s'.pmm
  pub taken_kept : (q : ℕ) → used s.pmm q ≡ 1 → used s'.pmm q ≡ 1

pub address-bit_or : (a b : ℕ) → b < 4096 → address (bit_or a b) ≡ address a
address-bit_or a b h = omega (arith, bit_or-page a b h)

pub is_present-bit_or : (a b : ℕ) → is_present a ≡ true → is_present (bit_or a b) ≡ true
is_present-bit_or a b h = ground (arith, bit_or_last a b)

-- what `make_table` makes of the address of a page
new_entry :
    (n : ℕ)
    → n % 4096 ≡ 0
    → n < 2 ^ 52
    → (is_present (bit_or (bit_or n 1) 2) ≡ true) × (address (bit_or (bit_or n 1) 2) ≡ n)
new_entry n h lt =
    let first = page-bit_or n 1 h (omega arith) in
    let odd : is_present (bit_or n 1) ≡ true = ground (arith, first) in
    (
      is_present-bit_or (bit_or n 1) 2 odd,
      address-bit_or (bit_or n 1) 2 (omega arith) ∙ address-bit_or n 1 (omega arith) ∙ omega arith,
    )

module _ (s : Vmm) (v : IsTree s) (path : List ℕ) (t i : ℕ) (inner : Table.IsInner path)
    (at : i < 512) (here : descend s.tables s.pml4 path ≡ some t) where
  kept : (k : ℕ) → HasPages k s.pmm → Step path t k s s
  kept k room = record {
    tree = v;
    here = here;
    leaves = λ is j p three lt. refl;
    same_root = refl;
    room = room;
    taken_kept = λ q h. h;
  }

  -- with a new table behind entry `i`
  module _ (n e : ℕ) (p' : Pmm) (absent : is_present (s.tables t i) ≡ false)
      (new : NewPage s.pmm p' n) (entry : (is_present e ≡ true) × (address e ≡ n)) where
    abbrev grown : Vmm
    grown = record s { tables = set_entry t i e (clear_table n s.tables); pmm = p' }

    taken :
        (is : List ℕ) (u : ℕ)
        → IsPath is
        → descend grown.tables s.pml4 is ≡ some u
        → (used p' (u / 4096) ≡ 1) × (u % 4096 ≡ 0)
    taken is u p h =
        elim (Table.table-after s v path t i e n inner at here absent new.free entry.0 entry.1 is u
          p h) [
            | inl old ↦
                let before = v.taken is u p old in
                ground (arith, before.0, before.1, new.took.marked (u / 4096))
            | inr same ↦
                let mark = new.took.marked (n / 4096) in
                let whole = new.whole in rw same (ground (arith, mark, whole))
          ]

    took_kept : (q : ℕ) → used s.pmm q ≡ 1 → used p' q ≡ 1
    took_kept q h = let mark = new.took.marked q in ground (arith, mark, h)

    off-IsBitmap :
        (is : List ℕ) (u : ℕ)
        → IsPath is
        → descend grown.tables s.pml4 is ≡ some u
        → ¬ IsBitmap p' (u / 4096)
    off-IsBitmap is u p h b =
        let here_bitmap : IsBitmap s.pmm (u / 4096) = rw new.took.total at b in
        elim (Table.table-after s v path t i e n inner at here absent new.free entry.0 entry.1 is u
          p h) [
            | inl old ↦ v.off_bitmap is u p old here_bitmap
            | inr same ↦
                let one = v.reserved (u / 4096) here_bitmap in
                let zero_there : used s.pmm (u / 4096) ≡ 0 = rw same new.free in
                omega (arith, one, zero_there)
          ]

    grown-Step : (k : ℕ) → HasPages k p' → Step path t k s grown
    grown-Step k room = record {
      tree = record {
        apart = Table.apart-after s v path t i e n inner at here absent new.free entry.0 entry.1;
        taken = taken;
        reserved = λ q b. took_kept q (v.reserved q (rw new.took.total at b));
        off_bitmap = off-IsBitmap;
        pages = new.took.valid;
        physical = rw new.took.total v.physical;
      };
      here = Table.path-after s v path t i e n inner at here absent new.free entry.0 entry.1;
      leaves = Table.leaf-after s v path t i e n inner at here absent new.free entry.0 entry.1;
      same_root = refl;
      room = room;
      taken_kept = took_kept;
    }

  fill-Step :
      (k : ℕ)
      → HasPages (suc k) s.pmm
      → Step path t k s (fill_entry t i s) × (is_present ((fill_entry t i s).tables t i) ≡ true)
  unfolding fill_entry make_table
  fill-Step k room = elim (Bool-cases (is_present (s.tables t i))) [
    | inl there ↦ rw there (kept k (HasPages-less k s.pmm room), there)
    | inr absent ↦
        let new = alloc-NewPage s.pmm v.pages v.physical room.0 in
        let entry = new_entry (alloc s.pmm).0 new.whole new.low in
        let off : clear_bitmap (alloc s.pmm).0 (alloc s.pmm).1 ≡ (alloc s.pmm).1 =
          clear_bitmap-off s v (alloc s.pmm).0 (alloc s.pmm).1 new in
        rw (absent, off)
          (
            grown-Step (alloc s.pmm).0 (bit_or (bit_or (alloc s.pmm).0 1) 2) (alloc s.pmm).1 absent
                new entry k room.1,
            ground (arith, entry.0),
          )
  ]

  module _ (e : ℕ)
      (same_way : (is_present e ≡ is_present (s.tables t i))
        × (address e ≡ address (s.tables t i))) where
    abbrev changed : Vmm
    changed = record s { tables = set_entry t i e s.tables }

    ways :
        (u j : ℕ)
        → (is_present (changed.tables u j) ≡ is_present (s.tables u j))
          × (address (changed.tables u j) ≡ address (s.tables u j))
    ways u j = elim (Bool-cases (u == t && j == i)) [
      | inl slot ↦
          let same_table : u ≡ t = ground arith in
          let same_index : j ≡ i = ground arith in rw (slot, same_table, same_index) same_way
      | inr other ↦ rw other (refl, refl)
    ]

    same_paths : (is : List ℕ) → descend changed.tables s.pml4 is ≡ descend s.tables s.pml4 is
    same_paths is = descend-same s.tables changed.tables ways is s.pml4

    leaf-kept :
        (is : List ℕ) (j : ℕ) (o : Option ℕ)
        → IsPath is
        → length is ≡ 3
        → descend s.tables s.pml4 is ≡ o
        → entry_in changed.tables o j ≡ entry_in s.tables o j
    leaf-kept is j none p three h = refl
    leaf-kept is j (some u) p three h = elim (Bool-cases (u == t && j == i)) [
      | inl slot ↦
          let same_table : u ≡ t = ground arith in
          let lengths = ap length (v.apart is path t p inner.0 (rw same_table at h) here) in
          absurd (omega (arith, lengths, three, inner.1))
      | inr other ↦ rw other refl
    ]

    changed-Step : (k : ℕ) → HasPages k s.pmm → Step path t k s changed
    changed-Step k room = record {
      tree = record {
        apart = λ is js u p q h h'.
            v.apart is js u p q (sym (same_paths is) ∙ h) (sym (same_paths js) ∙ h');
        taken = λ is u p h. v.taken is u p (sym (same_paths is) ∙ h);
        reserved = v.reserved;
        off_bitmap = λ is u p h. v.off_bitmap is u p (sym (same_paths is) ∙ h);
        pages = v.pages;
        physical = v.physical;
      };
      here = same_paths path ∙ here;
      leaves = λ is j p three lt.
          rw (same_paths is) (leaf-kept is j (descend s.tables s.pml4 is) p three refl);
      same_root = refl;
      room = room;
      taken_kept = λ q h. h;
    }

  mark-Step :
      (k flags : ℕ)
      → HasPages k s.pmm
      → is_present (s.tables t i) ≡ true
      → Step path t k s (mark_entry t i flags s)
        × (is_present ((mark_entry t i flags s).tables t i) ≡ true)
  unfolding mark_entry
  mark-Step k flags room present =
      let e = bit_or (s.tables t i) 4 in
      let there = is_present-bit_or (s.tables t i) 4 present in
      elim (Bool-cases (is_user flags)) [
        | inl user ↦ rw user (
          changed-Step e (there ∙ sym present, address-bit_or (s.tables t i) 4 (omega arith)) k
              room,
          ground (arith, there),
        )
        | inr kernel ↦ rw kernel (kept k room, present)
      ]

-- The same after a whole level, with the table that it found.
pub record Level (path : List ℕ) (i k : ℕ) (s : Vmm) (r : ℕ × Vmm) : Type 0 where
  pub tree : IsTree r.1
  pub found : descend r.1.tables r.1.pml4 (path ++ (i ∷ [])) ≡ some r.0
  pub leaves :
      (is : List ℕ) (j : ℕ)
      → IsPath is
      → length is ≡ 3
      → j < 512
      → leaf r.1.tables r.1.pml4 is j ≡ leaf s.tables s.pml4 is j
  pub same_root : r.1.pml4 ≡ s.pml4
  pub room : HasPages k r.1.pmm
  pub taken_kept : (q : ℕ) → used s.pmm q ≡ 1 → used r.1.pmm q ≡ 1

pub next_table-Level :
    (s : Vmm) (path : List ℕ) (t i k flags : ℕ)
    → IsTree s
    → Table.IsInner path
    → i < 512
    → descend s.tables s.pml4 path ≡ some t
    → HasPages (suc k) s.pmm
    → Level path i k s (next_table t i flags s)
unfolding next_table descend
next_table-Level s path t i k flags v inner at here room =
    let (filled, there) = fill-Step s v path t i inner at here k room in
    let s1 = fill_entry t i s in
    let (marked, still) =
      mark-Step s1 filled.tree path t i inner at filled.here k flags filled.room there in
    let s2 = mark_entry t i flags s1 in
    record {
      tree = marked.tree;
      found = descend-append s2.tables s2.pml4 t path (i ∷ []) marked.here ∙ rw still refl;
      leaves = λ is j p three lt. marked.leaves is j p three lt ∙ filled.leaves is j p three lt;
      same_root = marked.same_root ∙ filled.same_root;
      room = marked.room;
      taken_kept = λ q h. marked.taken_kept q (filled.taken_kept q h);
    }
