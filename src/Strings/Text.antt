-- ===== src/Strings/Text.antt =====
-- The text that memory holds at an address, and `strlen` of string.c.
use keyhole_os.Prelude.{
  ℕ, zero, suc, ◌+◌, ◌≤◌, ◌<◌, ◌≡◌, ◌≢◌, some, List, [], ◌∷◌, arith, length, ◌⊎◌, ◌∙◌,
}
use keyhole_os.Memory.{Memory}
use keyhole_os.Strings.{strlen, strlen_loop}

-- At `s` stand the bytes `xs`, none of them zero, and then a zero.
abbrev pub IsString : Memory → ℕ → List ℕ → Type 0
IsString m s [] = m s ≡ 0
IsString m s (x ∷ xs) = (m s ≡ x) × (x ≢ 0) × IsString m (s + 1) xs

-- No byte of the `n` from `a` on is one of the `k` from `b` on.
abbrev pub Apart : (a n b k : ℕ) → Type 0
Apart a n b k = (a + n ≤ b) ⊎ (b + k ≤ a)

-- A text stays where its bytes and its zero are not written.
pub IsString-frame :
    {m m' : Memory} (s : ℕ) (xs : List ℕ)
    → IsString m s xs
    → ((a : ℕ) → s ≤ a → a ≤ s + length xs → m' a ≡ m a)
    → IsString m' s xs
IsString-frame s [] h same = same s (omega arith) (omega arith) ∙ h
IsString-frame s (x ∷ xs) h same = (
  same s (omega arith) (omega arith) ∙ h.0,
  h.1,
  IsString-frame (s + 1) xs h.2 (λ a lo hi. same a (omega arith) (omega arith)),
)

strlen_loop-length :
    (f s i : ℕ) (m : Memory) (xs : List ℕ)
    → IsString m (s + i) xs
    → length xs < f
    → strlen_loop f m s i ≡ some (i + length xs)
unfolding strlen_loop
strlen_loop-length zero s i m xs h k = absurd (omega arith)
strlen_loop-length (suc f) s i m [] h k = ground arith
strlen_loop-length (suc f) s i m (x ∷ xs) h k =
    let e : s + i + 1 ≡ s + (i + 1) = omega arith in
    let t : IsString m (s + (i + 1)) xs = rw e at (h.2) in
    ground (arith, h.0, h.1, strlen_loop-length f s (i + 1) m xs t (omega arith))

-- `strlen` counts the bytes before the zero, with fuel beyond that count.
pub strlen-length :
    (f s : ℕ) (m : Memory) (xs : List ℕ)
    → IsString m s xs
    → length xs < f
    → strlen f m s ≡ some (length xs)
unfolding strlen
strlen-length f s m xs h k =
    let e : s ≡ s + 0 = omega arith in ground (arith, strlen_loop-length f s 0 m xs (rw e at h) k)
