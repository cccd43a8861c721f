-- ===== src/Keyboard/Tests.antt =====
-- The keyboard with a shell that keeps what it executes and shows.
use keyhole_os.Prelude.{
  ℕ, zero, suc, ◌+◌, ◌≡◌, refl, true, false, none, some, List, [], ◌∷◌, ◌++◌, arith,
}
use keyhole_os.Keyboard.{Past, Shell, Keyboard, keyboard_interrupts, key_char, type_key}
use keyhole_os.Keyboard.Strokes.{Stroke, key, backspace, all_codes, all_edited, edited}
use keyhole_os.Keyboard.Typing.{quiet, eoi, all_shown, typing-enter}

-- the world is the text on the screen, and what was executed behind a 0
abbrev recorder : Shell
recorder = record {
  World = List ℕ;
  print_str = λ s w. w ++ s;
  print_char = λ c w. w ++ (c ∷ []);
  print_clear_char = λ w. w ++ (8 ∷ []);
  print_clear = λ w. [];
  print_prompt = λ w. w ++ (b'$' ∷ []);
  pic_eoi = λ n w. w;
  read_history = λ w. none;
  execute = λ s p w. (
    record p { history_count = p.history_count + 1; history_pos = p.history_count + 1 },
    w ++ (0 ∷ s),
  );
}

abbrev no_past : Past
no_past = record { history = λ l i. 0; history_count = 0; history_pos = 0; page_start = 0 }

-- "l", "s", Backspace, "S"
abbrev strokes : List Stroke
strokes = key false 0x26 ∷ key false 0x1F ∷ backspace ∷ key true 0x1F ∷ []

typing-enter_example :
    let r =
      recorder.execute
        (all_edited false [] strokes)
        no_past
        (recorder.print_char 10 (all_shown recorder false [] strokes [])) in
    keyboard_interrupts recorder
      (all_codes strokes ++ (0x1C ∷ 0x9C ∷ []))
      (quiet recorder false [] no_past [])
    ≡ some (quiet recorder false [] r.0 (eoi recorder (eoi recorder (recorder.print_prompt r.1))))
unfolding key_char edited
typing-enter_example = typing-enter recorder false [] no_past [] strokes (
  (omega arith, λ e. absurd (omega (arith, e)), λ e. absurd (omega (arith, e)), omega arith),
  (
    (omega arith, λ e. absurd (omega (arith, e)), λ e. absurd (omega (arith, e)), omega arith),
    (
      omega arith,
      (
        (omega arith, λ e. absurd (omega (arith, e)), λ e. absurd (omega (arith, e)), omega arith),
        omega arith,
      ),
    ),
  ),
)

line_edited : all_edited false [] strokes ≡ b'l' ∷ b'S' ∷ []
unfolding all_edited key_char
line_edited = refl

-- The release of an arrow key leaves the prefix set, so the letter typed next is lost.
arrow_release :
    keyboard_interrupts recorder
      (0xE0 ∷ 0x48 ∷ 0xE0 ∷ 0xC8 ∷ 0x1E ∷ 0x9E ∷ [])
      (quiet recorder false [] no_past [])
    ≡ some (quiet recorder false [] no_past [])
unfolding keyboard_interrupts
arrow_release = refl

abbrev letters : ℕ → List ℕ
letters zero = []
letters (suc n) = b'a' ∷ letters n

abbrev letter_a : ℕ
letter_a = 0x1E

abbrev full_line : Keyboard (List ℕ)
full_line = quiet recorder false (letters 256) no_past []

full_line_overflow : type_key recorder letter_a full_line ≡ none
unfolding type_key
full_line_overflow = refl
