-- ===== src/Keyboard/Strokes.antt =====
-- The strokes of a keyboard, the scancodes that the device sends for them, and the line they edit.
use keyhole_os.Prelude.{
  ℕ, ◌+◌, ◌-◌, ◌<◌, ◌≤◌, ◌≢◌, Bool, true, false, List, [], ◌∷◌, ◌++◌, length, take,
}
use keyhole_os.Keyboard.{key_char}

-- a key that is pressed and released, with Shift held or without, or Backspace
pub data Stroke : Type 0 where
  key : (shift : Bool) → (scancode : ℕ) → Stroke
  backspace : Stroke

-- what the device sends for it
unfoldable pub codes : Stroke → List ℕ
codes (key false scancode) = scancode ∷ (scancode + 0x80) ∷ []
codes (key true scancode) = 0x2A ∷ scancode ∷ (scancode + 0x80) ∷ 0xAA ∷ []
codes backspace = 0x0E ∷ 0x8E ∷ []

unfoldable pub all_codes : List Stroke → List ℕ
unfolding codes
all_codes [] = []
all_codes (s ∷ ss) = codes s ++ all_codes ss

-- the line after a stroke
unfoldable pub edited : (caps : Bool) → List ℕ → Stroke → List ℕ
edited caps line (key shift scancode) = line ++ (key_char shift caps scancode ∷ [])
edited caps line backspace = take (length line - 1) line

unfoldable pub all_edited : (caps : Bool) → List ℕ → List Stroke → List ℕ
unfolding edited
all_edited caps line [] = line
all_edited caps line (s ∷ ss) = all_edited caps (edited caps line s) ss

-- A key of the table that is neither Enter nor without a character, and the line has room for it.
abbrev pub IsTypable : (caps : Bool) → List ℕ → Stroke → Type 0
IsTypable caps line (key shift scancode) =
    (scancode < 0x80)
    × (key_char shift caps scancode ≢ 0)
    × (key_char shift caps scancode ≢ 10)
    × (length line < 255)
IsTypable caps line backspace = length line ≤ 255

abbrev pub AllTypable : (caps : Bool) → List ℕ → List Stroke → Type 0
AllTypable caps line [] = length line ≤ 255
AllTypable caps line (s ∷ ss) = IsTypable caps line s × AllTypable caps (edited caps line s) ss
