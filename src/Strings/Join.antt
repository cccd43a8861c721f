-- ===== src/Strings/Join.antt =====
-- `strjoin` of string.c.
use keyhole_os.Prelude.{
  ℕ, suc, ◌+◌, ◌-◌, ◌≤◌, ◌<◌, ◌≡◌, ◌≢◌, ◌∙◌, some, List, [], ◌∷◌, ◌++◌, arith, length,
}
use keyhole_os.Memory.{Memory, store}
use keyhole_os.Strings.{kmemcpy, strjoin}
use keyhole_os.Strings.Text.{IsString, Apart, strlen-length}
use keyhole_os.Strings.Copy.{SameOutside, kmemcpy_lem}

-- the bytes `xs`, none of them zero, from `d` on
abbrev HasBytes : Memory → ℕ → List ℕ → Type 0
HasBytes m d [] = Unit {0}
HasBytes m d (x ∷ xs) = (m d ≡ x) × (x ≢ 0) × HasBytes m (d + 1) xs

HasBytes-moved :
    (m m' : Memory) (d s : ℕ) (xs : List ℕ)
    → IsString m s xs
    → ((a : ℕ) → d ≤ a → a < d + length xs → m' a ≡ m (s + (a - d)))
    → HasBytes m' d xs
HasBytes-moved m m' d s [] h same = tt
HasBytes-moved m m' d s (x ∷ xs) h same =
    let e : s + (d - d) ≡ s = omega arith in
    let first : m' d ≡ m (s + (d - d)) = same d (omega arith) (omega arith) in
    (rw e at first ∙ h.0, h.1, HasBytes-moved m m' (d + 1) (s + 1) xs h.2 next)
  where
    next : (a : ℕ) → d + 1 ≤ a → a < d + 1 + length xs → m' a ≡ m (s + 1 + (a - (d + 1)))
    next a lo hi =
        let e : s + 1 + (a - (d + 1)) ≡ s + (a - d) = omega arith in
        rw e (same a (omega arith) (omega arith))

HasBytes-end :
    (m : Memory) (d : ℕ) (xs : List ℕ) → HasBytes m d xs → m (d + length xs) ≡ 0 → IsString m d xs
HasBytes-end m d [] h z = let e : d + 0 ≡ d = omega arith in rw e at z
HasBytes-end m d (x ∷ xs) h z =
    let e : d + suc (length xs) ≡ d + 1 + length xs = omega arith in
    (h.0, h.1, HasBytes-end m (d + 1) xs h.2 (rw e at z))

HasBytes-append :
    (m : Memory) (d : ℕ) (xs ys : List ℕ)
    → HasBytes m d xs
    → IsString m (d + length xs) ys
    → IsString m d (xs ++ ys)
HasBytes-append m d [] ys h k = let e : d + 0 ≡ d = omega arith in rw e at k
HasBytes-append m d (x ∷ xs) ys h k =
    let e : d + suc (length xs) ≡ d + 1 + length xs = omega arith in
    (h.0, h.1, HasBytes-append m (d + 1) xs ys h.2 (rw e at k))

-- With fuel beyond both lengths, `strjoin` asks `kmalloc` for a block of both lengths and one byte, leaves the two
-- texts joined there and answers it; to what `kmalloc` has written it adds nothing outside this block. The
-- block stands apart from both texts, which `kmalloc` has left as they were.
pub strjoin_lem :
    (kmalloc : ℕ → Memory → ℕ × Memory) (f r a b : ℕ) (m m0 : Memory) (xs ys : List ℕ)
    → kmalloc (length xs + length ys + 1) m ≡ (r, m0)
    → IsString m a xs
    → IsString m b ys
    → IsString m0 a xs
    → IsString m0 b ys
    → Apart r (length xs + length ys + 1) a (length xs + 1)
    → Apart r (length xs + length ys + 1) b (length ys + 1)
    → length xs < f
    → length ys < f
    → (m' : Memory) × (strjoin kmalloc f m a b ≡ some (r, m'))
      × IsString m' r (xs ++ ys)
      × SameOutside r (length xs + length ys + 1) m0 m'
unfolding strjoin
strjoin_lem kmalloc f r a b m m0 xs ys block h0 k0 h k ra rb fx fy =
    let lx = length xs in
    let ly = length ys in
    let m1 = kmemcpy m0 r a lx in
    let m2 = kmemcpy m1 (r + lx) b ly in
    let m3 = store m2 (r + (lx + ly)) 0 in
    let c1 = λ (c : ℕ). kmemcpy_lem lx r a m0 (omega arith) c in
    let c2 = λ (c : ℕ). kmemcpy_lem ly (r + lx) b m1 (omega arith) c in
    let first = HasBytes-moved m0 m3 r a xs h (λ c lo hi. ground (arith, c1 c, c2 c)) in
    let second =
      HasBytes-moved m0 m3 (r + lx) b ys k
        (λ c lo hi. ground (arith, c1 (b + (c - (r + lx))), c2 c)) in
    let e : r + (lx + ly) ≡ r + lx + ly = omega arith in
    (
      m3,
      ground (arith, strlen-length f a m xs h0 fx, strlen-length f b m ys k0 fy, block),
      HasBytes-append m3 r xs ys first (HasBytes-end m3 (r + lx) ys second (rw e (ground arith))),
      λ c out. ground (arith, c1 c, c2 c),
    )
