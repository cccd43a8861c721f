-- ===== src/Pmm/Regions.antt =====
-- `pmm_init`, `pmm_free_region` and `pmm_reserve_region` of pmm.c.
use keyhole_os.Prelude.{
  ℕ, zero, suc, ◌+◌, ◌-◌, ◌*◌, ◌/◌, ◌%◌, ◌^◌, ◌<◌, ◌≡◌, refl, ◌==◌, if◌then◌else◌, arith, ltb, leb,
  Bool-cases, inl, inr, Bool, ◌&&◌,
}
use keyhole_os.Byte
use keyhole_os.Byte.{bit}
use keyhole_os.Pmm.{
  Pmm, page_size, write, free_pages, reserve_pages, free_region, reserve_region, fill, init,
}
use keyhole_os.Pmm.Pages.{
  used, IsValid, set_page-IsValid, used-set_page, clear_page-IsValid, used-clear_page,
}

-- page `q` is one of the `n` pages from `p` on
abbrev pub within : ℕ → ℕ → ℕ → Bool
within p n q = leb p q && ltb q (p + n)

free_pages-IsValid : (n p : ℕ) {s : Pmm} → IsValid s → IsValid (free_pages n p s)
unfolding free_pages
free_pages-IsValid zero p v = v
free_pages-IsValid (suc n) p v = free_pages-IsValid n (p + 1) (clear_page-IsValid p v)

reserve_pages-IsValid : (n p : ℕ) {s : Pmm} → IsValid s → IsValid (reserve_pages n p s)
unfolding reserve_pages
reserve_pages-IsValid zero p v = v
reserve_pages-IsValid (suc n) p v = reserve_pages-IsValid n (p + 1) (set_page-IsValid p v)

used-free_pages :
    (n p q : ℕ) {s : Pmm}
    → IsValid s
    → used (free_pages n p s) q ≡ (if within p n q then 0 else used s q)
unfolding free_pages
used-free_pages zero p q v = ground arith
used-free_pages (suc n) p q v =
    ground (arith, used-free_pages n (p + 1) q (clear_page-IsValid p v), used-clear_page p q v)

used-reserve_pages :
    (n p q : ℕ) {s : Pmm}
    → IsValid s
    → used (reserve_pages n p s) q ≡ (if within p n q then 1 else used s q)
unfolding reserve_pages
used-reserve_pages zero p q v = ground arith
used-reserve_pages (suc n) p q v =
    ground (arith, used-reserve_pages n (p + 1) q (set_page-IsValid p v), used-set_page p q v)

-- `pmm_free_region` marks free exactly the `len / PAGE_SIZE` pages from page `addr / PAGE_SIZE` on,
-- and keeps the invariant.
used-free_region :
    (addr len q : ℕ) {s : Pmm}
    → IsValid s
    → (used (free_region addr len s) q
        ≡ (if within (addr / page_size) (len / page_size) q then 0 else used s q))
      × IsValid (free_region addr len s)
unfolding free_region
used-free_region addr len q v = (
  used-free_pages (len / page_size) (addr / page_size) q v,
  free_pages-IsValid (len / page_size) (addr / page_size) v,
)

-- `pmm_reserve_region` marks in use exactly `len / PAGE_SIZE` pages, rounded up, from page `addr / PAGE_SIZE` on, for a
-- length that does not wrap, and keeps the invariant.
pub used-reserve_region :
    (addr len q : ℕ) {s : Pmm}
    → len + 4095 < 2 ^ 64
    → IsValid s
    → (used (reserve_region addr len s) q
        ≡ (if within (addr / page_size) ((len + 4095) / page_size) q then 1 else used s q))
      × IsValid (reserve_region addr len s)
unfolding reserve_region
used-reserve_region addr len q h v =
    let e : (len + page_size - 1) % 2 ^ 64 ≡ len + 4095 = omega arith in
    rw e (
      used-reserve_pages ((len + 4095) / page_size) (addr / page_size) q v,
      reserve_pages-IsValid ((len + 4095) / page_size) (addr / page_size) v,
    )

-- page `q` has a byte of the region
abbrev pub touches : (addr len q : ℕ) → Bool
touches addr len q = ltb (q * 4096) (addr + len) && ltb addr ((q + 1) * 4096)

-- page `q` lies in the region
abbrev pub holds_page : (addr len q : ℕ) → Bool
holds_page addr len q = leb addr (q * 4096) && leb ((q + 1) * 4096) (addr + len)

-- For a region that begins at a page's start and a length that does not wrap, `pmm_reserve_region` marks in use
-- exactly the pages that have a byte of the region, and keeps the invariant.
pub reserve_region-touches :
    (addr len q : ℕ) {s : Pmm}
    → addr % 4096 ≡ 0
    → len + 4095 < 2 ^ 64
    → IsValid s
    → (used (reserve_region addr len s) q ≡ (if touches addr len q then 1 else used s q))
      × IsValid (reserve_region addr len s)
reserve_region-touches addr len q {s} aligned h v =
    let r = used-reserve_region addr len q h v in
    let same : within (addr / page_size) ((len + 4095) / page_size) q ≡ touches addr len q =
      ground (arith, aligned) in
    (rw same at (r.0), r.1)

pub free_region-holds_page :
    (addr len q : ℕ) {s : Pmm}
    → addr % 4096 ≡ 0
    → IsValid s
    → (used (free_region addr len s) q ≡ (if holds_page addr len q then 0 else used s q))
      × IsValid (free_region addr len s)
free_region-holds_page addr len q {s} aligned v =
    let r = used-free_region addr len q v in
    let same : within (addr / page_size) (len / page_size) q ≡ holds_page addr len q =
      ground (arith, aligned) in
    (rw same at (r.0), r.1)

used-fill :
    (n i q : ℕ) (m : ℕ → ℕ)
    → bit (fill n i m (q / 8)) (q % 8)
      ≡ (if within (i * 8) (n * 8) q then 1 else bit (m (q / 8)) (q % 8))
unfolding fill
used-fill zero i q m = ground arith
used-fill (suc n) i q m = elim (Bool-cases (q / 8 == i)) [
  | inl e ↦
      ground (arith, used-fill n (i + 1) q (write m i 255), Byte.bit_full (q % 8) (omega arith))
  | inr e ↦ ground (arith, used-fill n (i + 1) q (write m i 255))
]

bytes-fill : (n i j : ℕ) (m : ℕ → ℕ) → ((k : ℕ) → m k < 256) → fill n i m j < 256
unfolding fill
bytes-fill zero i j m h = h j
bytes-fill (suc n) i j m h = bytes-fill n (i + 1) j (write m i 255) (λ k. ground (arith, h k))

-- `pmm_init` marks in use every page of the whole bytes of the bitmap, leaves what lies behind them
-- as it was, and counts all pages as used. The bitmap's memory held bytes before.
pub init_lem :
    (mem_size q : ℕ) (s : Pmm)
    → mem_size < 2 ^ 64
    → ((i : ℕ) → s.bitmap i < 256)
    → (used (init mem_size s) q ≡ (if ltb q (mem_size / page_size / 8 * 8) then 1 else used s q))
      × ((init mem_size s).used_pages ≡ (init mem_size s).total_pages)
      × IsValid (init mem_size s)
unfolding init
init_lem mem_size q s h b = (
  ground (arith, used-fill (mem_size / page_size / 8) 0 q s.bitmap),
  refl,
  record {
    bytes = λ i. bytes-fill (mem_size / page_size / 8) 0 i s.bitmap b;
    small = omega arith;
    counted = omega arith;
  },
)
