-- ===== src/Strings/Tests.antt =====
-- The theorems about strings at texts in a small memory.
use keyhole_os.Prelude.{
  ◌==◌, if◌then◌else◌, ℕ, ◌-◌, ◌≡◌, refl, some, List, [], ◌∷◌, ◌++◌, arith, ◌↔◌, inr, get_or, leb,
  if◌then◌else◌,
}
use keyhole_os.Prelude.Int.{ℤ, pos}
use keyhole_os.Memory.{Memory}
use keyhole_os.Strings.{strcmp, strcpy, strjoin}
use keyhole_os.Strings.Text.{IsString}
use keyhole_os.Strings.Compare.{strcmp-zero}
use keyhole_os.Strings.Copy.{SameOutside, strcpy_lem}
use keyhole_os.Strings.Join.{strjoin_lem}

abbrev home : List ℕ
home = b'h' ∷ b'o' ∷ b'm' ∷ b'e' ∷ []

abbrev var : List ℕ
var = b'v' ∷ b'a' ∷ b'r' ∷ []

-- "home" at 0, "var" at 16, zeros elsewhere
abbrev memory : Memory
memory a = if leb 16 a then get_or var (a - 16) 0 else get_or home a 0

home_at : IsString memory 0 home
home_at = omega arith

var_at : IsString memory 16 var
var_at = omega arith

strcmp_test : strcmp 9 memory 0 16 ≡ some (ℤ.negsuc 13)
unfolding strcmp
strcmp_test = refl

strcmp-zero_example : (r : ℤ) × (strcmp 9 memory 0 16 ≡ some r) × ((r ≡ pos 0) ↔ (home ≡ var))
strcmp-zero_example =
    strcmp-zero 9 0 16 memory home var home_at var_at (omega arith) (omega arith) (omega arith)

strcpy_lem_example :
    (m' : Memory) × (strcpy 9 memory 32 0 ≡ some m')
    × IsString m' 32 home
    × SameOutside 32 5 memory m'
strcpy_lem_example = strcpy_lem 9 32 0 memory home home_at (inr (omega arith)) (omega arith)

-- a `kmalloc` that writes the size in front of the block at 32
abbrev malloc : ℕ → Memory → ℕ × Memory
malloc size m = (32, λ c. if c == 31 then size else m c)

strjoin_lem_example :
    (m' : Memory) × (strjoin malloc 9 memory 0 16 ≡ some (32, m'))
    × IsString m' 32 (home ++ var)
    × SameOutside 32 8 (malloc 8 memory).1 m'
strjoin_lem_example =
    strjoin_lem malloc 9 32 0 16 memory (malloc 8 memory).1 home var refl home_at var_at home_at
      var_at (inr (omega arith)) (inr (omega arith)) (omega arith) (omega arith)
