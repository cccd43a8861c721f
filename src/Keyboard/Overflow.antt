-- ===== src/Keyboard/Overflow.antt =====
-- When a key leaves `input_buffer` of src/impl/kernel/main.c.
use keyhole_os.Prelude.{ℕ, ◌≡◌, ◌≢◌, ◌≤◌, ◌↔◌, none, length, arith}
use keyhole_os.Keyboard.{Shell, Keyboard, key_char, type_key}

-- A key without Ctrl writes behind the 256 bytes of the buffer exactly when the line fills it and the
-- key has a character, Enter included, and is not Backspace: the code has no test for it.
pub type_key_iff :
    (shell : Shell) (c : ℕ) (k : Keyboard shell.World)
    → (type_key shell c k ≡ none)
      ↔ ((256 ≤ length k.input) × (c ≢ 0x0E) × (key_char k.shift_held k.caps_lock c ≢ 0))
unfolding type_key
type_key_iff shell c k = (ground arith, λ h. ground (arith, h))
