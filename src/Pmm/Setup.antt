-- ===== src/Pmm/Setup.antt =====
-- `pmm_setup` of pmm.c: the walk over the multiboot tags, once to find the end of the available
-- memory and once to free the available regions, and the two reservations.
-- Memory is read as bytes, little endian; the second walk reads it as the frees in between leave it. A walk takes fuel, `none` means that it ran out.
pub mod Walk
use keyhole_os.Prelude.{
  ℕ, zero, suc, ◌+◌, ◌-◌, ◌*◌, ◌/◌, ◌%◌, ◌^◌, ◌≤◌, ◌<◌, ◌≡◌, refl, Option, none, some, ◌==◌, ltb,
  leb, if◌then◌else◌, arith,
}
use keyhole_os.Memory.{Memory}
use keyhole_os.Pmm.{Pmm, page_size, init, free_region, reserve_region}

-- `*(uint32_t*)a` and `*(uint64_t*)a`
unfoldable pub read32 : Memory → ℕ → ℕ
read32 m a = m a + m (a + 1) * 2 ^ 8 + m (a + 2) * 2 ^ 16 + m (a + 3) * 2 ^ 24

unfoldable pub read64 : Memory → ℕ → ℕ
unfolding read32
read64 m a = read32 m a + read32 m (a + 4) * 2 ^ 32

-- `struct multiboot_mmap_entry`, less the field that is not read
pub record Entry : Type 0 where
  pub addr : ℕ
  pub len : ℕ
  pub kind : ℕ

unfoldable pub entry_at : Memory → ℕ → Entry
unfolding read32 read64
entry_at m p = record { addr = read64 m p; len = read64 m (p + 8); kind = read32 m (p + 16) }

-- where the tag behind `tag` begins: `tag + ((tag->size + 7) & ~7)`, the sum in 32 bits
unfoldable pub next_tag : Memory → ℕ → ℕ
unfolding read32
next_tag m tag = tag + (read32 m (tag + 4) + 7) % 2 ^ 32 / 8 * 8

-- Memory, with the bitmap's bytes behind 0x300000.
abbrev pub seen : Memory → Pmm → Memory
seen m s a = if leb 0x300000 a then s.bitmap (a - 0x300000) else m a

-- The two passes are the same loops around two bodies; `mem` is the memory that a state comes with.
module _ {S : Type 0} (mem : S → Memory) (body : Entry → S → S) where
  -- `while (ptr < end)`
  unfoldable pub walk_entries : ℕ → (size ptr end : ℕ) → S → Option S
  walk_entries zero size ptr end s = none
  walk_entries (suc n) size ptr end s =
      let rest = walk_entries n size (ptr + size) end (body (entry_at (mem s) ptr) s) in
      if ltb ptr end then rest else some s

  -- the body of a tag of type 6
  unfoldable pub walk_mmap : ℕ → ℕ → S → Option S
  unfolding walk_entries read32
  walk_mmap n tag s =
      walk_entries n (read32 (mem s) (tag + 8)) (tag + 16) (tag + read32 (mem s) (tag + 4)) s

  -- `while (tag->type != 0)`
  unfoldable pub walk_tags : ℕ → ℕ → S → Option S
  unfolding walk_mmap next_tag
  walk_tags zero tag s = none
  walk_tags (suc n) tag s =
      let stop = some s in
      let mmap : Option S = elim (walk_mmap n tag s) [
        | none ↦ none
        | some s' ↦ walk_tags n (next_tag (mem s') tag) s'
      ] in
      let other = walk_tags n (next_tag (mem s) tag) s in
      if read32 (mem s) tag == 0 then stop else if read32 (mem s) tag == 6 then mmap else other

-- the body of the first pass
unfoldable pub widen : Entry → ℕ → ℕ
widen e total =
    let region_end = (e.addr + e.len) % 2 ^ 64 in
    if e.kind == 1 then if ltb total region_end then region_end else total else total

-- the body of the second pass
unfoldable pub release : Entry → Pmm → Pmm
release e s = if e.kind == 1 then free_region e.addr e.len s else s

unfoldable pub setup : ℕ → Memory → ℕ → Pmm → Option Pmm
unfolding walk_tags widen release
setup fuel m addr s = elim (walk_tags (λ total. seen m s) widen fuel (addr + 8) 0) [
  | none ↦ none
  | some total ↦ elim (walk_tags (seen m) release fuel (addr + 8) (init total s)) [
    | none ↦ none
    | some s' ↦ some (reserve_region 0x100000 0x200000 (reserve_region 0 0x100000 s'))
  ]
]
