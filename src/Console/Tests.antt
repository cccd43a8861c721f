-- ===== src/Console/Tests.antt =====
-- The theorems about the screen at small screens.
use keyhole_os.Prelude.{ℕ, ◌+◌, ◌*◌, ◌≤◌, ◌<◌, ◌≡◌, ◌≢◌, refl, ◌↔◌, arith, List, [], ◌∷◌, length}
use keyhole_os.Console.{VgaChar, Screen, print_str, print_int, print_clear_char, decimal, num_cols}
use keyhole_os.Console.Bounds.{IsValid, SameBehind, shown, print_str-IsValid, print_clear_char_iff}
use keyhole_os.Console.Output.{Shows, print_str-Shows}
use keyhole_os.Console.Numbers.{value, digit, All, IsDecimal, First, print_int_lem}

abbrev blank : VgaChar
blank = record { character = 0; color = 0 }

-- the cursor near the end of the last row
abbrev corner : Screen
corner = record { buffer = λ j. blank; col = 78; row = 24; color = 15; ports = [] }

corner-IsValid : IsValid corner
corner-IsValid = omega arith

decimal_test : decimal 64 1066 [] ≡ b'1' ∷ b'0' ∷ b'6' ∷ b'6' ∷ []
unfolding decimal
decimal_test = refl

print_str-IsValid_example :
    let s' = print_str (b'a' ∷ b'b' ∷ b'c' ∷ 10 ∷ []) corner in
    IsValid s' × SameBehind corner.buffer s'.buffer × (shown s'.ports ≡ s'.row * num_cols + s'.col)
print_str-IsValid_example = print_str-IsValid (b'a' ∷ b'b' ∷ b'c' ∷ 10 ∷ []) corner-IsValid

print_clear_char_iff_example : IsValid (print_clear_char corner) ↔ (0 < 78)
print_clear_char_iff_example = print_clear_char_iff corner-IsValid

print_str-Shows_example : Shows corner (b'a' ∷ b'b' ∷ []) (print_str (b'a' ∷ b'b' ∷ []) corner)
print_str-Shows_example =
    print_str-Shows (b'a' ∷ b'b' ∷ []) corner (omega arith) (omega arith) (omega arith)

print_int_lem_example :
    (ds : List ℕ) × (print_int 1066 corner ≡ print_str ds corner)
    × (value digit 10 0 ds ≡ 1066)
    × All IsDecimal ds
    × First (λ c. c ≢ b'0') ds
    × (length ds ≤ 20)
print_int_lem_example = print_int_lem 1066 corner (omega arith) (omega arith)
