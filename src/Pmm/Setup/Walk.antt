-- ===== src/Pmm/Setup/Walk.antt =====
-- What the walks of `pmm_setup` meet: the entries of the memory map, in order.
use keyhole_os.Prelude.{
  ℕ, zero, suc, ◌+◌, ◌*◌, ◌/◌, ◌≤◌, ◌<◌, ◌≡◌, ◌≢◌, refl, sym, ◌∙◌, ◌%◌, true, some, ◌==◌, ltb,
  if◌then◌else◌, arith, List, [], ◌∷◌, ◌++◌, Bool, ◌||◌, ◌&&◌, false,
}
use keyhole_os.Pmm.{Pmm, page_size}
use keyhole_os.Pmm.Pages.{used}
use keyhole_os.Pmm.Regions.{holds_page}
use keyhole_os.Memory.{Memory}
use keyhole_os.Pmm.Setup.{
  Entry, entry_at, read32, read64, next_tag, walk_entries, walk_mmap, walk_tags, widen,
}

-- From `ptr` to `end` the memory holds these entries, each of `size` bytes, in front of the bitmap.
pub data Entries (m : Memory) (size end : ℕ) : ℕ → List Entry → Type 0 where
  nil : {ptr : ℕ} → end ≤ ptr → Entries m size end ptr []
  cons :
      {ptr : ℕ} {e : Entry} {es : List Entry}
      → ptr < end
      → ptr + 20 ≤ 0x300000
      → e ≡ entry_at m ptr
      → Entries m size end (ptr + size) es
      → Entries m size end ptr (e ∷ es)

-- From `tag` on stand tags up to one of type 0, in front of the bitmap; the memory maps among them hold these
-- entries.
pub data Tags (m : Memory) : ℕ → List Entry → Type 0 where
  stop : {tag : ℕ} → tag + 12 ≤ 0x300000 → read32 m tag ≡ 0 → Tags m tag []
  mmap :
      {tag : ℕ} {es fs gs : List Entry}
      → tag + 12 ≤ 0x300000
      → read32 m tag ≡ 6
      → Entries m (read32 m (tag + 8)) (tag + read32 m (tag + 4)) (tag + 16) es
      → Tags m (next_tag m tag) fs
      → gs ≡ es ++ fs
      → Tags m tag gs
  other :
      {tag : ℕ} {es : List Entry}
      → tag + 12 ≤ 0x300000
      → read32 m tag ≢ 0
      → read32 m tag ≢ 6
      → Tags m (next_tag m tag) es
      → Tags m tag es

-- the body over the entries in order
abbrev pub over : {S : Type 0} → (Entry → S → S) → List Entry → S → S
over body [] s = s
over body (e ∷ es) s = over body es (body e s)

over-append :
    {S : Type 0} (body : Entry → S → S) (es fs : List Entry) (s : S)
    → over body (es ++ fs) s ≡ over body fs (over body es s)
over-append body [] fs s = refl
over-append body (e ∷ es) fs s = over-append body es fs (body e s)

-- the rounds that are enough
rounds_entries : {m : Memory} {size end ptr : ℕ} {es : List Entry} → Entries m size end ptr es → ℕ
rounds_entries (nil h) = 1
rounds_entries (cons h low e rest) = suc (rounds_entries rest)

unfoldable pub rounds : {m : Memory} {tag : ℕ} {es : List Entry} → Tags m tag es → ℕ
unfolding rounds_entries
rounds (stop low h) = 1
rounds (mmap low h es rest e) = rounds_entries es + suc (rounds rest)
rounds (other low h k rest) = suc (rounds rest)

-- Reads in front of the bitmap do not see it.
module _ (m m' : Memory) (same : (a : ℕ) → a < 0x300000 → m' a ≡ m a) where
  read32-same : (a : ℕ) → a + 4 ≤ 0x300000 → read32 m' a ≡ read32 m a
  unfolding read32
  read32-same a h =
      rw
        (
          same a (omega (arith, h)),
          same (a + 1) (omega (arith, h)),
          same (a + 2) (omega (arith, h)),
          same (a + 3) (omega (arith, h)),
        )
        refl

  read64-same : (a : ℕ) → a + 8 ≤ 0x300000 → read64 m' a ≡ read64 m a
  unfolding read64
  read64-same a h =
      rw (read32-same a (omega (arith, h)), read32-same (a + 4) (omega (arith, h))) refl

  entry_at-same : (p : ℕ) → p + 20 ≤ 0x300000 → entry_at m' p ≡ entry_at m p
  unfolding entry_at
  entry_at-same p h =
      rw
        (
          read64-same p (omega (arith, h)),
          read64-same (p + 8) (omega (arith, h)),
          read32-same (p + 16) (omega (arith, h)),
        )
        refl

  next_tag-same : (tag : ℕ) → tag + 12 ≤ 0x300000 → next_tag m' tag ≡ next_tag m tag
  unfolding next_tag
  next_tag-same tag h = rw (read32-same (tag + 4) (omega (arith, h))) refl

module _ {S : Type 0} {m : Memory} (mem : S → Memory) (body : Entry → S → S)
    (same : (s : S) (a : ℕ) → a < 0x300000 → mem s a ≡ m a) where
  walk_entries-over :
      (n : ℕ) {size end ptr : ℕ} {es : List Entry} (s : S) (x : Entries m size end ptr es)
      → rounds_entries x ≤ n
      → walk_entries mem body n size ptr end s ≡ some (over body es s)
  unfolding walk_entries rounds_entries
  walk_entries-over zero s (nil h) k = absurd (omega arith)
  walk_entries-over zero s (cons h low e rest) k = absurd (omega arith)
  walk_entries-over (suc n) s (nil h) k = ground arith
  walk_entries-over (suc n) {end = end} {ptr = ptr} s (cons {e = entry} h low e rest) k =
      let more : ltb ptr end ≡ true = ground (arith, h) in
      let read : entry_at (mem s) ptr ≡ entry = entry_at-same m (mem s) (same s) ptr low ∙ sym e in
      rw (more, read) (walk_entries-over n (body entry s) rest (omega arith))

  pub walk_tags-over :
      (n : ℕ) {tag : ℕ} {es : List Entry} (s : S) (x : Tags m tag es)
      → rounds x ≤ n
      → walk_tags mem body n tag s ≡ some (over body es s)
  unfolding walk_tags walk_mmap rounds
  walk_tags-over zero s (stop low h) k = absurd (omega arith)
  walk_tags-over zero s (mmap low h es rest e) k = absurd (omega arith)
  walk_tags-over zero s (other low h h' rest) k = absurd (omega arith)
  walk_tags-over (suc n) {tag} s (stop low h) k =
      let kind = read32-same m (mem s) (same s) tag (omega (arith, low)) in ground (arith, kind, h)
  walk_tags-over (suc n) {tag} s (mmap {es = es} {fs = fs} low h xs rest e) k =
      let kind = read32-same m (mem s) (same s) tag (omega (arith, low)) ∙ h in
      let size = read32-same m (mem s) (same s) (tag + 4) (omega (arith, low)) in
      let each = read32-same m (mem s) (same s) (tag + 8) (omega (arith, low)) in
      let s' = over body es s in
      let next = next_tag-same m (mem s') (same s') tag low in
      rw
        (
          e,
          over-append body es fs s,
          kind,
          size,
          each,
          walk_entries-over n s xs (omega arith),
          next,
        )
        (walk_tags-over n s' rest (omega arith))
  walk_tags-over (suc n) {tag} s (other low h h' rest) k =
      let kind = read32-same m (mem s) (same s) tag (omega (arith, low)) in
      let next = next_tag-same m (mem s) (same s) tag low in
      let no_end : (read32 m tag == 0) ≡ false = ground (arith, h) in
      let no_map : (read32 m tag == 6) ≡ false = ground (arith, h') in
      rw (kind, next, no_end, no_map) (walk_tags-over n s rest (omega arith))

-- the available regions begin at a page's start
abbrev pub AreAligned : List Entry → Type 0
AreAligned [] = Unit {0}
AreAligned (e ∷ es) = (e.addr % 4096 ≡ 0) × AreAligned es

-- page `q` lies in an available region of the memory map
pub available : List Entry → ℕ → Bool
available [] q = false
available (e ∷ es) q = (e.kind == 1 && holds_page e.addr e.len q) || available es q

-- the pages that the first pass finds, of the whole bytes of the bitmap
pub pages_of : List Entry → ℕ
unfolding widen
pages_of es = over widen es 0 / page_size / 8 * 8

-- what is in use after `pmm_setup`
pub expected : List Entry → Pmm → ℕ → ℕ
expected es s q =
    if ltb q 768
    then 1
    else if available es q
    then 0
    else if ltb q (pages_of es)
    then 1
    else used s q
