-- ===== src/Console.antt =====
-- src/impl/x86_64/print.c, src/intf/print.h: the VGA text screen, its cursor and its scrolling.
-- The screen memory is a function from an index to a cell, since the code writes it at any index;
-- the port writes are kept in a list, the last one first. `size_t` arithmetic is modulo 2 ^ 64.
pub mod Scroll
pub mod Bounds
pub mod Output
pub mod Numbers
mod Tests
use keyhole_os.Prelude.{
  ℕ, zero, suc, ◌+◌, ◌-◌, ◌*◌, ◌/◌, ◌%◌, ◌^◌, ◌==◌, leb, ltb, if◌then◌else◌, List, [], ◌∷◌, get_or,
}

abbrev pub num_cols : ℕ
num_cols = 80

abbrev pub num_rows : ℕ
num_rows = 25

-- `struct Char`
pub record VgaChar : Type 0 where
  pub character : ℕ
  pub color : ℕ

abbrev pub Buffer : Type 0
Buffer = ℕ → VgaChar

pub record Screen : Type 0 where
  pub buffer : Buffer
  pub col : ℕ
  pub row : ℕ
  pub color : ℕ
  pub ports : List (ℕ × ℕ)

abbrev pub put : Buffer → ℕ → VgaChar → Buffer
put b i v j = if j == i then v else b j

abbrev pub outb : ℕ → ℕ → Screen → Screen
outb port value s = record s { ports = (port, value) ∷ s.ports }

-- the position is a `uint16_t`
unfoldable pub update_cursor : ℕ → ℕ → Screen → Screen
update_cursor row col s =
    let at = (row * num_cols + col) % 2 ^ 16 in
    outb 0x3D5 (at / 2 ^ 8 % 2 ^ 8) (outb 0x3D4 0x0E (outb 0x3D5 (at % 2 ^ 8) (outb 0x3D4 0x0F s)))

-- the loop of `clear_row` from column `i` on, with the rounds left
pub clear_cells : ℕ → ℕ → ℕ → VgaChar → Buffer → Buffer
clear_cells zero i row empty b = b
clear_cells (suc n) i row empty b =
    clear_cells n (i + 1) row empty (put b ((i + num_cols * row) % 2 ^ 64) empty)

-- It sets the cursor to the top left, too.
unfoldable pub clear_row : ℕ → Screen → Screen
unfolding clear_cells
clear_row curr_row s = record s {
  buffer = clear_cells num_cols 0 curr_row (record { character = b' '; color = s.color }) s.buffer;
  col = 0;
  row = 0;
}

-- the cell at the cursor's column
unfoldable pub clear_col : ℕ → Screen → Screen
clear_col curr_row s = record s {
  buffer =
      put s.buffer ((s.col + num_cols * curr_row) % 2 ^ 64)
        (record { character = b' '; color = s.color });
}

pub clear_rows : ℕ → ℕ → Screen → Screen
clear_rows zero i s = s
clear_rows (suc n) i s = clear_rows n (i + 1) (clear_row i s)

unfoldable pub print_clear : Screen → Screen
unfolding clear_rows update_cursor clear_row
print_clear s = update_cursor 0 0 (clear_rows num_rows 0 s)

-- `col--` on a `size_t`
unfoldable pub print_clear_char : Screen → Screen
unfolding clear_col update_cursor
print_clear_char s =
    let s' = clear_col s.row (record s { col = (s.col + 2 ^ 64 - 1) % 2 ^ 64 }) in
    update_cursor s'.row s'.col s'

-- the inner and the outer loop of the scrolling, with the rounds left
pub scroll_cells : ℕ → ℕ → ℕ → Buffer → Buffer
scroll_cells zero i crow b = b
scroll_cells (suc n) i crow b =
    scroll_cells n (i + 1) crow (put b (i + num_cols * (crow - 1)) (b (i + num_cols * crow)))

pub scroll_rows : ℕ → ℕ → Buffer → Buffer
scroll_rows zero crow b = b
scroll_rows (suc n) crow b = scroll_rows n (crow + 1) (scroll_cells num_cols 0 crow b)

unfoldable pub print_newline : Screen → Screen
unfolding update_cursor scroll_rows
print_newline s =
    let below = record s { col = 0; row = s.row + 1 } in
    let scrolled =
      clear_row (num_rows - 1)
        (record s { buffer = scroll_rows (num_rows - 1) 1 s.buffer; col = 0 }) in
    let last = record scrolled { row = num_rows - 1 } in
    if ltb s.row (num_rows - 1)
    then update_cursor below.row below.col below
    else update_cursor last.row last.col last

-- the write of one character that is no line end
unfoldable pub put_char : ℕ → Screen → Screen
unfolding update_cursor
put_char c s =
    let s' = record s {
      buffer =
          put s.buffer ((s.col + num_cols * s.row) % 2 ^ 64)
            (record { character = c; color = s.color });
      col = (s.col + 1) % 2 ^ 64;
    } in
    update_cursor s'.row s'.col s'

unfoldable pub print_char : ℕ → Screen → Screen
unfolding print_newline put_char
print_char c s =
    if c == 10
    then print_newline s
    else put_char c (if leb num_cols s.col then print_newline s else s)

-- The string comes as the bytes before its zero.
unfoldable pub print_chars : List ℕ → Screen → Screen
print_chars [] s = s
print_chars (c ∷ cs) s = print_chars cs (print_char c s)

unfoldable pub print_str : List ℕ → Screen → Screen
unfolding print_chars update_cursor
print_str str s = let s' = print_chars str s in update_cursor s'.row s'.col s'

unfoldable pub print_set_color : ℕ → ℕ → Screen → Screen
print_set_color foreground background s = record s {
  color = (foreground + background * 2 ^ 4) % 2 ^ 8;
}

-- The digits of `print_int`, the last one pushed first; it prints them in that order.
pub decimal : ℕ → ℕ → List ℕ → List ℕ
decimal zero n buf = buf
decimal (suc f) n buf =
    let rest = decimal f (n / 10) ((b'0' + n % 10) ∷ buf) in if n == 0 then buf else rest

-- 64 rounds are more than a `uint64_t` has digits.
unfoldable pub print_int : ℕ → Screen → Screen
unfolding decimal print_chars update_cursor
print_int n s =
    let s' = print_chars (decimal 64 n []) s in
    if n == 0 then print_char b'0' s else update_cursor s'.row s'.col s'

abbrev pub hex_chars : List ℕ
hex_chars =
    b'0' ∷ b'1' ∷ b'2' ∷ b'3' ∷ b'4' ∷ b'5' ∷ b'6' ∷ b'7' ∷ b'8' ∷ b'9' ∷ b'A' ∷ b'B' ∷ b'C' ∷ b'D'
    ∷ b'E' ∷ b'F' ∷ []

-- The text that `print_uint64_as_hex` builds from the end of its buffer: `num & 0xF` is `num % 16`
-- and `num >>= 4` is `num / 16`.
pub hexadecimal : ℕ → ℕ → List ℕ → List ℕ
hexadecimal zero num ptr = ptr
hexadecimal (suc f) num ptr =
    let rest = hexadecimal f (num / 2 ^ 4) (get_or hex_chars (num % 2 ^ 4) 0 ∷ ptr) in
    if num == 0 then ptr else rest

unfoldable pub print_uint64_as_hex : ℕ → Screen → Screen
unfolding hexadecimal
print_uint64_as_hex num s =
    print_str (hexadecimal 64 num []) (if num == 0 then print_char b'0' s else s)
