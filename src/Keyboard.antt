-- ===== src/Keyboard.antt =====
-- src/impl/kernel/main.c: the keyboard's branch of `interrupt_handler`, interrupt 33, with
-- `history_load_page`.
-- `none` as a result means that the code leaves an array: a byte behind `input_buffer` or behind a
-- line of `history` is written, or `history` is read before its first line.
pub mod Strokes
pub mod Typing
pub mod Overflow
mod Tests
use keyhole_os.Prelude.{
  ℕ, zero, suc, ◌+◌, ◌-◌, ◌%◌, ◌^◌, Bool, true, false, ◌&&◌, ◌||◌, not, Option, none, some, ◌==◌,
  leb, ltb, if◌then◌else◌, List, [], ◌∷◌, ◌++◌, length, take, get_or,
}

-- `history`, `history_count`, `history_pos` and `page_start`
pub record Past : Type 0 where
  pub history : ℕ → ℕ → ℕ
  pub history_count : ℕ
  pub history_pos : ℕ
  pub page_start : ℕ

-- What the keyboard needs of the console, the interrupt controller, the file system and the shell.
-- `read_history` is `vfs_cat` of the history's file, `none` where it fails or gives no data.
pub record Shell : Type 1 where
  pub World : Type 0
  pub print_str : List ℕ → World → World
  pub print_char : ℕ → World → World
  pub print_clear_char : World → World
  pub print_clear : World → World
  pub print_prompt : World → World
  pub pic_eoi : ℕ → World → World
  pub read_history : World → Option (List ℕ)
  pub execute : List ℕ → Past → World → Past × World

-- The flags, the bytes of `input_buffer` before `input_pos`, and what the keyboard acts on.
pub record Keyboard (World : Type 0) : Type 0 where
  pub caps_lock : Bool
  pub shift_held : Bool
  pub ctrl_held : Bool
  pub extended : Bool
  pub input : List ℕ
  pub past : Past
  pub world : World

abbrev pub scancode_to_ascii : List ℕ
scancode_to_ascii =
    0 ∷ 0 ∷ b'1' ∷ b'2' ∷ b'3' ∷ b'4' ∷ b'5' ∷ b'6' ∷ b'7' ∷ b'8' ∷ b'9' ∷ b'0' ∷ b'-' ∷ b'=' ∷ 0
    ∷ 0 ∷ b'q' ∷ b'w' ∷ b'e' ∷ b'r' ∷ b't' ∷ b'y' ∷ b'u' ∷ b'i' ∷ b'o' ∷ b'p' ∷ b'[' ∷ b']' ∷ 10 ∷ 0
    ∷ b'a' ∷ b's' ∷ b'd' ∷ b'f' ∷ b'g' ∷ b'h' ∷ b'j' ∷ b'k' ∷ b'l' ∷ b';' ∷ 39 ∷ b'`' ∷ 0 ∷ 92
    ∷ b'z' ∷ b'x' ∷ b'c' ∷ b'v' ∷ b'b' ∷ b'n' ∷ b'm' ∷ b',' ∷ b'.' ∷ b'/' ∷ 0 ∷ b'*' ∷ 0 ∷ b' ' ∷ []

abbrev pub scancode_to_ascii_shift : List ℕ
scancode_to_ascii_shift =
    0 ∷ 0 ∷ b'!' ∷ b'@' ∷ b'#' ∷ b'$' ∷ b'%' ∷ b'^' ∷ b'&' ∷ b'*' ∷ b'(' ∷ b')' ∷ b'_' ∷ b'+' ∷ 0
    ∷ 0 ∷ b'Q' ∷ b'W' ∷ b'E' ∷ b'R' ∷ b'T' ∷ b'Y' ∷ b'U' ∷ b'I' ∷ b'O' ∷ b'P' ∷ b'{' ∷ b'}' ∷ 10 ∷ 0
    ∷ b'A' ∷ b'S' ∷ b'D' ∷ b'F' ∷ b'G' ∷ b'H' ∷ b'J' ∷ b'K' ∷ b'L' ∷ b':' ∷ 34 ∷ b'~' ∷ 0 ∷ b'|'
    ∷ b'Z' ∷ b'X' ∷ b'C' ∷ b'V' ∷ b'B' ∷ b'N' ∷ b'M' ∷ b'<' ∷ b'>' ∷ b'?' ∷ 0 ∷ b'*' ∷ 0 ∷ b' ' ∷ []

-- `c` of a key, with the caps lock's change; the tables have 0 behind the keys they name
unfoldable pub key_char : (shift caps : Bool) → (scancode : ℕ) → ℕ
key_char shift caps scancode =
    let c = get_or (if shift then scancode_to_ascii_shift else scancode_to_ascii) scancode 0 in
    if caps && (leb b'a' c && leb c b'z')
    then c - 32
    else if caps && (leb b'A' c && leb c b'Z')
    then c + 32
    else c

infixl 5 ◌>>=◌
abbrev pub ◌>>=◌ : {A B : Type 0} → Option A → (A → Option B) → Option B
none >>= f = none
some a >>= f = f a

abbrev pub history_size : ℕ
history_size = 16

-- the variables of `history_load_page` and the lines it fills
pub record Loading : Type 0 where
  line : ℕ
  loaded : ℕ
  at : ℕ
  lines : ℕ → ℕ → ℕ

abbrev store_byte : ℕ → Loading → ℕ → ℕ → ℕ
store_byte c s = λ l i. if l == s.loaded && i == s.at then c else s.lines l i

-- the body of its loop
load_byte : (start c : ℕ) → Loading → Option Loading
load_byte start c s =
    if c == 10
    then (if leb start s.line
        then (if leb 256 s.at
            then none
            else some (record {
              line = s.line + 1;
              loaded = s.loaded + 1;
              at = 0;
              lines = store_byte 0 s;
            }))
        else some (record s { line = s.line + 1 }))
    else if leb start s.line
    then (if leb 256 s.at then none else some (record s { at = s.at + 1; lines = store_byte c s }))
    else some s

load_bytes : (start : ℕ) → List ℕ → Loading → Option Loading
load_bytes start [] s = some s
load_bytes start (c ∷ cs) s =
    let rest = load_byte start c s >>= load_bytes start cs in
    if ltb s.loaded history_size then rest else some s

unfoldable pub history_load_page : (start : ℕ) → Option (List ℕ) → Past → Option Past
unfolding load_bytes load_byte
history_load_page start none p = some p
history_load_page start (some file) p =
    load_bytes start file (record { line = 0; loaded = 0; at = 0; lines = p.history }) >>= λ s.
    some (record p { history = s.lines; page_start = start })

-- the text in the `n` bytes of a line from byte `i` on
pub text_in : ℕ → (ℕ → ℕ) → ℕ → Option (List ℕ)
text_in zero bytes i = none
text_in (suc n) bytes i =
    let rest = text_in n bytes (i + 1) >>= λ cs. some (bytes i ∷ cs) in
    if bytes i == 0 then some [] else rest

module _ (shell : Shell) where
  -- `while (input_pos > 0) { input_pos--; print_clear_char(); }`
  unfoldable pub wipe : ℕ → shell.World → shell.World
  wipe zero w = w
  wipe (suc n) w = wipe n (shell.print_clear_char w)

  -- the line at `history_pos` in place of the input
  recall : Keyboard shell.World → Option (Keyboard shell.World)
  recall k =
      if ltb k.past.history_pos k.past.page_start
      then none
      else text_in 256 (k.past.history ((k.past.history_pos - k.past.page_start) % history_size)) 0
        >>= λ text. some (record k {
          input = text;
          world = shell.print_str text (wipe (length k.input) k.world);
        })

  unfoldable pub arrow_up : Keyboard shell.World → Option (Keyboard shell.World)
  unfolding recall history_load_page
  arrow_up k =
      let p = record k.past { history_pos = k.past.history_pos - 1 } in
      let new_start = p.history_pos + 1 - history_size in
      if k.past.history_pos == 0
      then some k
      else (if ltb p.history_pos p.page_start
          then history_load_page new_start (shell.read_history k.world) p
          else some p)
        >>= λ p'. recall (record k { past = p' })

  unfoldable pub arrow_down : Keyboard shell.World → Option (Keyboard shell.World)
  unfolding recall history_load_page wipe
  arrow_down k =
      let p = record k.past { history_pos = k.past.history_pos + 1 } in
      if ltb (k.past.history_pos + 1) k.past.history_count
      then ((if leb (p.page_start + history_size) p.history_pos
            then history_load_page p.history_pos (shell.read_history k.world) p
            else some p)
          >>= λ p'. recall (record k { past = p' }))
      else some (
          if k.past.history_pos + 1 == k.past.history_count
          then record k {
            past = record k.past { history_pos = k.past.history_count };
            input = [];
            world = wipe (length k.input) k.world;
          }
          else k)

  -- Enter: the text goes to `execute`.
  unfoldable pub enter : Keyboard shell.World → Keyboard shell.World
  enter k =
      let (past, w) = shell.execute k.input k.past (shell.print_char 10 k.world) in
      record k { input = []; past = past; world = shell.print_prompt w }

  -- the last branch: a key without Ctrl
  unfoldable pub type_key : ℕ → Keyboard shell.World → Option (Keyboard shell.World)
  unfolding key_char enter
  type_key scancode k =
      let c = key_char k.shift_held k.caps_lock scancode in
      let full = leb 256 (length k.input) in
      if scancode == 0x0E
      then some (
          if length k.input == 0 then k else record k {
            input = take (length k.input - 1) k.input;
            world = shell.print_clear_char k.world;
          })
      else if c == 0
      then some k
      else if full
      then none
      else some (
          if c == 10
          then enter k
          else record k { input = k.input ++ (c ∷ []); world = shell.print_char c k.world })

  ctrl_key : ℕ → Keyboard shell.World → Keyboard shell.World
  ctrl_key scancode k =
      if scancode == 0x2E
      then record k {
        input = [];
        world = shell.print_prompt (shell.print_str (b'^' ∷ b'C' ∷ 10 ∷ []) k.world);
      }
      else if scancode == 0x26
      then record k { world = shell.print_prompt (shell.print_clear k.world) }
      else k

  -- behind the prefix 0xE0
  extended_key : ℕ → Keyboard shell.World → Option (Keyboard shell.World)
  unfolding arrow_up arrow_down
  extended_key scancode k =
      if scancode == 0x1D
      then some (record k { ctrl_held = true })
      else if scancode == 0x9D
      then some (record k { ctrl_held = false })
      else if scancode == 0x48
      then arrow_up k
      else if scancode == 0x50
      then arrow_down k
      else some k

  -- the branch of a scancode, without its `pic_eoi`
  unfoldable pub key_event : ℕ → Keyboard shell.World → Option (Keyboard shell.World)
  unfolding ctrl_key extended_key type_key
  key_event scancode k =
      if scancode == 0x3A
      then some (record k { caps_lock = not k.caps_lock })
      else if scancode == 0x2A || scancode == 0x36
      then some (record k { shift_held = true })
      else if scancode == 0x1D
      then some (record k { ctrl_held = true })
      else if scancode % 2 ^ 7 == 0x1D && leb 0x80 scancode
      then some (record k { ctrl_held = false })
      else if scancode == 0xAA || scancode == 0xB6
      then some (record k { shift_held = false })
      else if scancode == 0xE0
      then some (record k { extended = true })
      else if leb 0x80 scancode
      then some k
      else if k.ctrl_held
      then some (ctrl_key scancode k)
      else if k.extended
      then extended_key scancode (record k { extended = false })
      else type_key scancode k

  -- `interrupt_handler` for one scancode; every branch ends with `pic_eoi(1)`
  unfoldable pub keyboard_interrupt : ℕ → Keyboard shell.World → Option (Keyboard shell.World)
  unfolding key_event
  keyboard_interrupt scancode k =
      key_event scancode k >>= λ k'. some (record k' { world = shell.pic_eoi 1 k'.world })

  -- the scancodes that the device sends, in order
  unfoldable pub keyboard_interrupts : List ℕ → Keyboard shell.World → Option (Keyboard shell.World)
  unfolding keyboard_interrupt
  keyboard_interrupts [] k = some k
  keyboard_interrupts (c ∷ cs) k = keyboard_interrupt c k >>= keyboard_interrupts cs
