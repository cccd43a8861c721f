-- ===== src/Pmm/Alloc.antt =====
-- `pmm_alloc` and `pmm_free` of pmm.c.
use keyhole_os.Prelude.{
  ℕ, zero, suc, ◌+◌, ◌*◌, ◌/◌, ◌%◌, ◌^◌, ◌≤◌, ◌<◌, ◌≡◌, ◌≢◌, refl, Option, none, some, ◌==◌,
  if◌then◌else◌, arith, Bool-cases, inl, inr, dec_lt,
}
use keyhole_os.Byte
use keyhole_os.Byte.{bit, set_bit, clear_bit, test_bit, bit_full}
use keyhole_os.Pmm.{
  Pmm, page_size, decr, set_page, clear_page, clear_bit_from, take_page, alloc_from, alloc, free,
}
use keyhole_os.Pmm.Pages.{used, IsValid, set_page-IsValid, used-set_page, used-clear_page}

-- what the inner loop finds in the `n` bits from `j` on
abbrev FirstClear : ℕ → ℕ → ℕ → Option ℕ → Type 0
FirstClear b j n none = (k : ℕ) → j ≤ k → k < j + n → bit b k ≡ 1
FirstClear b j n (some k) =
    (j ≤ k) × (k < j + n) × (bit b k ≡ 0) × ((m : ℕ) → j ≤ m → m < k → bit b m ≡ 1)

FirstClear-none :
    (b j n : ℕ) → bit b j ≡ 1 → FirstClear b (j + 1) n none → FirstClear b j (suc n) none
FirstClear-none b j n h rest k lo hi = elim (Bool-cases (k == j)) [
  | inl e ↦ ground arith
  | inr e ↦ rest k (ground arith) (omega arith)
]

FirstClear-suc :
    (b j n : ℕ) (o : Option ℕ) → bit b j ≡ 1 → FirstClear b (j + 1) n o → FirstClear b j (suc n) o
FirstClear-suc b j n none h rest = FirstClear-none b j n h rest
FirstClear-suc b j n (some k) h rest = (omega arith, omega arith, rest.2, below)
  where
    below : (m : ℕ) → j ≤ m → m < k → bit b m ≡ 1
    below m lo hi = elim (Bool-cases (m == j)) [
      | inl e ↦ ground arith
      | inr e ↦ rest.3 m (ground arith) hi
    ]

clear_bit_from-FirstClear :
    (n j b : ℕ) → b < 256 → j + n ≤ 8 → FirstClear b j n (clear_bit_from n j b)
unfolding clear_bit_from
clear_bit_from-FirstClear zero j b hb hj = λ k lo hi. absurd (omega arith)
clear_bit_from-FirstClear (suc n) j b hb hj =
    let t = Byte.test_bit-bit b j hb (omega arith) in
    elim (Bool-cases (test_bit b j == 0)) [
      | inl e ↦ rw e (omega arith, omega arith, ground arith, λ m lo hi. absurd (omega arith))
      | inr e ↦ rw e (
          FirstClear-suc b j n (clear_bit_from n (j + 1) b) (ground arith)
            (clear_bit_from-FirstClear n (j + 1) b hb (omega arith)))
    ]

-- the pages that `pmm_alloc` looks at
abbrev pub capacity : Pmm → ℕ
capacity s = s.total_pages / 8 * 8

-- the state after page `p` was taken
pub record Took (p : ℕ) (s s' : Pmm) : Type 0 where
  pub marked : (q : ℕ) → used s' q ≡ (if q == p then 1 else used s q)
  pub counted : s'.used_pages ≡ (s.used_pages + 1) % 2 ^ 64
  pub total : s'.total_pages ≡ s.total_pages
  pub valid : IsValid s'

-- What a search of the pages from `lo` to `hi` may answer.
pub data Search (s : Pmm) (lo hi : ℕ) : ℕ × Pmm → Type 0 where
  full : ((q : ℕ) → lo ≤ q → q < hi → used s q ≡ 1) → Search s lo hi (0, s)
  page :
      {r : ℕ × Pmm} (p : ℕ)
      → lo ≤ p
      → p < hi
      → used s p ≡ 0
      → ((q : ℕ) → lo ≤ q → q < p → used s q ≡ 1)
      → r.0 ≡ p * page_size
      → Took p s r.1
      → Search s lo hi r

take_page-set_page :
    (i j : ℕ) (s : Pmm)
    → j < 8
    → i * 8 + j < 2 ^ 52
    → take_page i j s ≡ ((i * 8 + j) * page_size, set_page (i * 8 + j) s)
unfolding take_page set_page
take_page-set_page i j s hj small =
    let d : (i * 8 + j) / 8 ≡ i = omega arith in
    let m : (i * 8 + j) % 8 ≡ j = omega arith in
    let a : (i * 8 + j) % 2 ^ 64 * page_size % 2 ^ 64 ≡ (i * 8 + j) * page_size = omega arith in
    rw (d, m, a)

set_page-Took : (p : ℕ) {s : Pmm} → IsValid s → Took p s (set_page p s)
unfolding set_page
set_page-Took p v = record {
  marked = λ q. used-set_page p q v;
  counted = refl;
  total = refl;
  valid = set_page-IsValid p v;
}

-- the pages of byte `i` that the inner loop finds in use
used_of_bits :
    (s : Pmm) (i n q : ℕ)
    → ((k : ℕ) → 0 ≤ k → k < n → bit (s.bitmap i) k ≡ 1)
    → i * 8 ≤ q
    → q < i * 8 + n
    → n ≤ 8
    → used s q ≡ 1
used_of_bits s i n q h lo hi small =
    let d : q / 8 ≡ i = omega arith in rw d (h (q % 8) (omega arith) (omega arith))

take_page-Search :
    {s : Pmm} (i j n : ℕ)
    → IsValid s
    → FirstClear (s.bitmap i) 0 8 (some j)
    → i * 8 + 8 ≤ n
    → n ≤ 2 ^ 52
    → Search s (i * 8) n (take_page i j s)
take_page-Search {s} i j n v f hn small =
    rw (take_page-set_page i j s (omega arith) (omega arith)) (
      page (i * 8 + j) (omega arith) (omega arith) clear
        (λ q lo hi. used_of_bits s i j q (λ k a b. f.3 k a b) lo hi (omega arith)) refl
        (set_page-Took (i * 8 + j) v))
  where
    clear : used s (i * 8 + j) ≡ 0
    clear =
        let d : (i * 8 + j) / 8 ≡ i = omega arith in
        let m : (i * 8 + j) % 8 ≡ j = omega arith in rw (d, m) (f.2)

-- a byte with every bit set does not stop the search
skip_byte :
    {s : Pmm} {r : ℕ × Pmm} (i n : ℕ)
    → ((q : ℕ) → i * 8 ≤ q → q < i * 8 + 8 → used s q ≡ 1)
    → Search s ((i + 1) * 8) n r
    → Search s (i * 8) n r
skip_byte {s} i n h (full rest) = full all
  where
    all : (q : ℕ) → i * 8 ≤ q → q < n → used s q ≡ 1
    all q lo hi = elim (dec_lt q (i * 8 + 8)) [ yes a ↦ h q lo a | no a ↦ rest q (omega arith) hi ]
skip_byte {s} i n h (page p lo hi z rest a t) = page p (omega arith) hi z all a t
  where
    all : (q : ℕ) → i * 8 ≤ q → q < p → used s q ≡ 1
    all q lo' hi' = elim (dec_lt q (i * 8 + 8)) [
      | yes b ↦ h q lo' b
      | no b ↦ rest q (omega arith) hi'
    ]

-- one round of the outer loop, given what the rest of it answers
round-Search :
    {s : Pmm} (i hi : ℕ) (rest : ℕ × Pmm) (o : Option ℕ)
    → IsValid s
    → i * 8 + 8 ≤ hi
    → hi ≤ 2 ^ 52
    → FirstClear (s.bitmap i) 0 8 o
    → Search s ((i + 1) * 8) hi rest
    → Search s (i * 8) hi (elim o [ some j ↦ take_page i j s | none ↦ rest ])
round-Search {s} i hi rest none v a b f r =
    skip_byte i hi (λ q lo' hi'. used_of_bits s i 8 q f lo' hi' (omega arith)) r
round-Search i hi rest (some j) v a b f r = take_page-Search i j hi v f a b

alloc_from-Search :
    (n i hi : ℕ) {s : Pmm}
    → IsValid s
    → (i + n) * 8 ≡ hi
    → hi ≤ 2 ^ 52
    → Search s (i * 8) hi (alloc_from n i s)
unfolding alloc_from
alloc_from-Search zero i hi v e small = full (λ q lo hi. absurd (omega arith))
alloc_from-Search (suc n) i hi {s} v e small =
    let rest = alloc_from-Search n (i + 1) hi v (omega arith) small in
    elim (Bool-cases (s.bitmap i == 255)) [
      | inl eq ↦ rw eq (
          round-Search i hi (alloc_from n (i + 1) s) none v (omega arith) small
            (λ k lo hi'. let b : s.bitmap i ≡ 255 = ground arith in rw b (bit_full k hi')) rest)
      | inr ne ↦ rw ne (
          round-Search i hi (alloc_from n (i + 1) s) (clear_bit_from 8 0 (s.bitmap i)) v
            (omega arith) small
            (clear_bit_from-FirstClear 8 0 (s.bitmap i) (v.bytes i) (omega arith)) rest)
    ]

-- `pmm_alloc` searches every whole byte of the bitmap. When all these pages are in use it answers NULL and
-- changes nothing; else it answers the address of the lowest free page, which is NULL for page 0, marks that page
-- and no other, and counts it.
pub alloc-Search : {s : Pmm} → IsValid s → Search s 0 (capacity s) (alloc s)
unfolding alloc
alloc-Search {s} v =
    let small = v.small in
    alloc_from-Search (s.total_pages / 8) 0 (capacity s) v (omega arith) (omega arith)

-- `r` is `s` again, as far as anyone can see
pub record Same (s r : Pmm) : Type 0 where
  pub marks : (q : ℕ) → used r q ≡ used s q
  pub count : r.used_pages ≡ s.used_pages
  pub total : r.total_pages ≡ s.total_pages

free-Took :
    {s s' : Pmm} (p a : ℕ)
    → IsValid s
    → a ≡ p * page_size
    → used s p ≡ 0
    → Took p s s'
    → Same s (free a s')
unfolding free
free-Took {s} {s'} p a v e z t =
    let d : a / page_size ≡ p = omega arith in
    rw d (record {
      marks = marks;
      count = unfold clear_page in count;
      total = unfold clear_page in t.total;
    })
  where
    marks : (q : ℕ) → used (clear_page p s') q ≡ used s q
    marks q = elim (Bool-cases (q == p)) [
      | inl eq ↦ let b : q ≡ p = ground arith in rw b (ground (arith, used-clear_page p p t.valid))
      | inr ne ↦ ground (arith, used-clear_page p q t.valid, t.marked q)
    ]

    count : decr s'.used_pages ≡ s.used_pages
    count = let h = v.counted in let k = t.counted in omega arith

free_after :
    {s : Pmm} {r : ℕ × Pmm}
    → IsValid s
    → Search s 0 (capacity s) r
    → r.0 ≢ 0
    → Same s (free r.0 r.1)
free_after v (full h) ne = absurd (ne refl)
free_after v (page {r} p lo hi z below a t) ne = free-Took p r.0 v a z t

-- `pmm_free` of a page that `pmm_alloc` just handed out gives back the whole state: every page's
-- mark and both counters.
pub free-alloc : {s : Pmm} → IsValid s → (alloc s).0 ≢ 0 → Same s (free (alloc s).0 (alloc s).1)
free-alloc v ne = free_after v (alloc-Search v) ne
