-- ===== src/Keyboard/Typing.antt =====
-- What is typed on the keyboard is the line that the shell executes.
use keyhole_os.Prelude.{
  ℕ, ◌+◌, ◌-◌, ◌<◌, ◌≤◌, ◌≡◌, ◌≢◌, refl, ap, ◌∙◌, Bool, true, false, ◌&&◌, ◌||◌, not, Option, none,
  some, ◌==◌, leb, if◌then◌else◌, List, [], ◌∷◌, ◌++◌, length, take, arith,
}
use keyhole_os.Keyboard.Strokes.{
  Stroke, key, backspace, codes, all_codes, edited, all_edited, IsTypable, AllTypable,
}
use keyhole_os.Byte.{checked_to, from-checked_to}
use keyhole_os.Keyboard.{
  ◌>>=◌, Shell, Keyboard, Past, key_char, type_key, enter, key_event, keyboard_interrupt,
  keyboard_interrupts,
}

-- a scancode that no branch before the last one takes, nor its break code
plain : ℕ → Bool
plain c =
    not (c == 0x3A || (c == 0x2A || c == 0x36)) && not (c == 0x1D || c == 0x60) && not (c == 0x0E)

plain_table :
    (shift caps : Bool) → checked_to (λ c. key_char shift caps c == 0 || plain c) 0x80 ≡ true
unfolding checked_to key_char plain
plain_table false false = refl
plain_table false true = refl
plain_table true false = refl
plain_table true true = refl

typable-plain : (shift caps : Bool) (c : ℕ) → c < 0x80 → key_char shift caps c ≢ 0 → plain c ≡ true
typable-plain shift caps c h nz =
    let t =
      from-checked_to (λ c. key_char shift caps c == 0 || plain c) 0x80 {k = c} h
        (plain_table shift caps) in
    ground (arith, t)

bind_assoc :
    {A B C : Type 0} (o : Option A) (f : A → Option B) (g : B → Option C)
    → (o >>= λ a. f a >>= g) ≡ (o >>= f >>= g)
bind_assoc none f g = refl
bind_assoc (some a) f g = refl

module _ (shell : Shell) where
  -- a keyboard with no modifier but perhaps the caps lock
  abbrev pub quiet : Bool → List ℕ → Past → shell.World → Keyboard shell.World
  quiet caps line past w = record {
    caps_lock = caps;
    shift_held = false;
    ctrl_held = false;
    extended = false;
    input = line;
    past = past;
    world = w;
  }

  abbrev pub eoi : shell.World → shell.World
  eoi w = shell.pic_eoi 1 w

  -- what a stroke shows, with the end of each interrupt
  pub shown : (caps : Bool) → List ℕ → Stroke → shell.World → shell.World
  shown caps line (key false c) w = eoi (eoi (shell.print_char (key_char false caps c) w))
  shown caps line (key true c) w = eoi (eoi (eoi (shell.print_char (key_char true caps c) (eoi w))))
  shown caps line backspace w = eoi (eoi (if length line == 0 then w else shell.print_clear_char w))

  pub all_shown : (caps : Bool) → List ℕ → List Stroke → shell.World → shell.World
  all_shown caps line [] w = w
  all_shown caps line (s ∷ ss) w = all_shown caps (edited caps line s) ss (shown caps line s w)

  plain_event :
      (c : ℕ) (k : Keyboard shell.World)
      → plain c ≡ true
      → c < 0x80
      → k.ctrl_held ≡ false
      → k.extended ≡ false
      → key_event shell c k ≡ type_key shell c k
  unfolding key_event plain
  plain_event c k p h nc ne = ground arith

  break_event :
      (c : ℕ) (k : Keyboard shell.World)
      → plain c ≡ true
      → c < 0x80
      → key_event shell (c + 0x80) k ≡ some k
  unfolding key_event plain
  break_event c k p h = ground arith

  typed :
      (c : ℕ) (k : Keyboard shell.World)
      → plain c ≡ true
      → key_char k.shift_held k.caps_lock c ≢ 0
      → key_char k.shift_held k.caps_lock c ≢ 10
      → length k.input < 255
      → (let char = key_char k.shift_held k.caps_lock c in
          type_key shell c k
          ≡ some
              (record k { input = k.input ++ (char ∷ []); world = shell.print_char char k.world }))
  unfolding type_key plain
  typed c k p nz nl room = ground arith

  -- a key's make and break codes with Shift held or without, over any keyboard without Ctrl
  make_lem :
      (c : ℕ) (k : Keyboard shell.World)
      → c < 0x80
      → k.ctrl_held ≡ false
      → k.extended ≡ false
      → key_char k.shift_held k.caps_lock c ≢ 0
      → key_char k.shift_held k.caps_lock c ≢ 10
      → length k.input < 255
      → (let char = key_char k.shift_held k.caps_lock c in
          keyboard_interrupts shell (c ∷ (c + 0x80) ∷ []) k
          ≡ some (record k {
            input = k.input ++ (char ∷ []);
            world = eoi (eoi (shell.print_char char k.world));
          }))
  unfolding keyboard_interrupts
  make_lem c k h nc ne nz nl room =
      let p = typable-plain k.shift_held k.caps_lock c h nz in
      let char = key_char k.shift_held k.caps_lock c in
      let k' = record k {
        input = k.input ++ (char ∷ []);
        world = eoi (shell.print_char char k.world);
      } in
      rw (plain_event c k p h nc ne, typed c k p nz nl room, break_event c k' p h) refl

  interrupts-append :
      (cs ds : List ℕ) (k : Keyboard shell.World)
      → keyboard_interrupts shell (cs ++ ds) k
        ≡ (keyboard_interrupts shell cs k >>= keyboard_interrupts shell ds)
  unfolding keyboard_interrupts
  interrupts-append [] ds k = refl
  interrupts-append (c ∷ cs) ds k =
      (λ i. keyboard_interrupt shell c k >>= λ k'. interrupts-append cs ds k' i)
      ∙ bind_assoc (keyboard_interrupt shell c k) (keyboard_interrupts shell cs)
          (keyboard_interrupts shell ds)

  shifted_lem :
      (caps : Bool) (line : List ℕ) (past : Past) (w : shell.World) (c : ℕ)
      → IsTypable caps line (key true c)
      → keyboard_interrupts shell (0x2A ∷ c ∷ (c + 0x80) ∷ 0xAA ∷ []) (quiet caps line past w)
        ≡ some (
            quiet caps
              (line ++ (key_char true caps c ∷ []))
              past
              (eoi (eoi (eoi (shell.print_char (key_char true caps c) (eoi w))))))
  unfolding keyboard_interrupts keyboard_interrupt key_event
  shifted_lem caps line past w c t =
      let held = record (quiet caps line past (eoi w)) { shift_held = true } in
      interrupts-append (c ∷ (c + 0x80) ∷ []) (0xAA ∷ []) held
      ∙ ap (λ o. o >>= keyboard_interrupts shell (0xAA ∷ []))
          (make_lem c held t.0 refl refl t.1 t.2 t.3)

  backspace_lem :
      (caps : Bool) (line : List ℕ) (past : Past) (w : shell.World)
      → keyboard_interrupts shell (0x0E ∷ 0x8E ∷ []) (quiet caps line past w)
        ≡ some (
            quiet caps
              (take (length line - 1) line)
              past
              (eoi (eoi (if length line == 0 then w else shell.print_clear_char w))))
  unfolding keyboard_interrupts keyboard_interrupt key_event type_key
  backspace_lem caps [] past w = refl
  backspace_lem caps (x ∷ line) past w =
      let some_left : (length (x ∷ line) == 0) ≡ false = ground arith in rw some_left refl

  stroke_lem :
      (caps : Bool) (line : List ℕ) (past : Past) (w : shell.World) (s : Stroke)
      → IsTypable caps line s
      → keyboard_interrupts shell (codes s) (quiet caps line past w)
        ≡ some (quiet caps (edited caps line s) past (shown caps line s w))
  unfolding codes edited shown
  stroke_lem caps line past w (key false c) t =
      make_lem c (quiet caps line past w) t.0 refl refl t.1 t.2 t.3
  stroke_lem caps line past w (key true c) t = shifted_lem caps line past w c t
  stroke_lem caps line past w backspace t = backspace_lem caps line past w

  typing :
      (caps : Bool) (line : List ℕ) (past : Past) (w : shell.World) (ss : List Stroke)
      → AllTypable caps line ss
      → keyboard_interrupts shell (all_codes ss) (quiet caps line past w)
        ≡ some (quiet caps (all_edited caps line ss) past (all_shown caps line ss w))
  unfolding all_codes all_edited all_shown keyboard_interrupts
  typing caps line past w [] t = refl
  typing caps line past w (s ∷ ss) t =
      interrupts-append (codes s) (all_codes ss) (quiet caps line past w)
      ∙ ap (λ o. o >>= keyboard_interrupts shell (all_codes ss)) (stroke_lem caps line past w s t.0)
      ∙ typing caps (edited caps line s) past (shown caps line s w) ss t.1

  enter_lem :
      (caps : Bool) (line : List ℕ) (past : Past) (w : shell.World)
      → length line ≤ 255
      → let r = shell.execute line past (shell.print_char 10 w) in
        keyboard_interrupts shell (0x1C ∷ 0x9C ∷ []) (quiet caps line past w)
        ≡ some (quiet caps [] r.0 (eoi (eoi (shell.print_prompt r.1))))
  unfolding keyboard_interrupts keyboard_interrupt key_event type_key enter key_char
  enter_lem true line past w room =
      let full : leb 256 (length line) ≡ false = ground arith in rw full refl
  enter_lem false line past w room =
      let full : leb 256 (length line) ≡ false = ground arith in rw full refl

  all_edited-room :
      (caps : Bool) (line : List ℕ) (ss : List Stroke)
      → AllTypable caps line ss
      → length (all_edited caps line ss) ≤ 255
  unfolding all_edited
  all_edited-room caps line [] t = t
  all_edited-room caps line (s ∷ ss) t = all_edited-room caps (edited caps line s) ss t.1

  -- The keyboard with no modifier but perhaps the caps lock gets the scancodes of any strokes, of
  -- keys with a character and of Backspace, that keep the line within 255 bytes, and then those of
  -- Enter. The shell executes the text that the strokes edit, once, after each stroke has been shown
  -- as it was typed; then the line is empty, the prompt is printed and each interrupt has been ended.
  pub typing-enter :
      (caps : Bool) (line : List ℕ) (past : Past) (w : shell.World) (ss : List Stroke)
      → AllTypable caps line ss
      → let r =
          shell.execute
            (all_edited caps line ss)
            past
            (shell.print_char 10 (all_shown caps line ss w)) in
        keyboard_interrupts shell (all_codes ss ++ (0x1C ∷ 0x9C ∷ [])) (quiet caps line past w)
        ≡ some (quiet caps [] r.0 (eoi (eoi (shell.print_prompt r.1))))
  typing-enter caps line past w ss t =
      interrupts-append (all_codes ss) (0x1C ∷ 0x9C ∷ []) (quiet caps line past w)
      ∙ ap (λ o. o >>= keyboard_interrupts shell (0x1C ∷ 0x9C ∷ [])) (typing caps line past w ss t)
      ∙ enter_lem caps (all_edited caps line ss) past (all_shown caps line ss w)
          (all_edited-room caps line ss t)
