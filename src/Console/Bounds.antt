-- ===== src/Console/Bounds.antt =====
-- The cursor of print.c stays on the screen, and nothing outside the screen's 2000 cells is written.
use keyhole_os.Prelude.{
  ℕ, ◌+◌, ◌*◌, ◌&&◌, ◌%◌, ◌^◌, ◌≤◌, ◌<◌, ◌≡◌, refl, ◌∙◌, ◌==◌, leb, ltb, ◌↔◌, if◌then◌else◌, arith,
  Bool-cases, inl, inr, List, [], ◌∷◌,
}
use keyhole_os.Console.{
  Buffer, Screen, num_cols, num_rows, clear_row, print_newline, put_char, print_char, print_chars,
  print_str, print_clear_char,
}
use keyhole_os.Console.Scroll.{scrolled_lem}

-- The cursor stands on the screen, or just behind the end of a row.
pub record IsValid (s : Screen) : Type 0 where
  pub row_in : s.row < num_rows
  pub col_in : s.col ≤ num_cols

-- the memory behind the screen's 80 * 25 cells
abbrev pub SameBehind : Buffer → Buffer → Type 0
SameBehind b b' = (j : ℕ) → 2000 ≤ j → b' j ≡ b j

-- What `print_newline` leaves: from any row but the last the next row's start, and no cell changed;
-- from the last row every row one higher and the last one blank.
pub newline_buffer :
    (s : Screen) (j : ℕ)
    → (print_newline s).buffer j ≡ (
        if ltb s.row 24
        then s.buffer j
        else if ltb j 1920
        then s.buffer (j + num_cols)
        else if ltb j 2000
        then record { character = b' '; color = s.color }
        else s.buffer j)
unfolding print_newline clear_row
newline_buffer s j = elim (Bool-cases (ltb s.row 24)) [
  | inl t ↦ rw t refl
  | inr t ↦ rw t (scrolled_lem j (record { character = b' '; color = s.color }) s.buffer)
]

pub newline_cursor :
    (s : Screen)
    → ((print_newline s).row ≡ (if ltb s.row 24 then s.row + 1 else 24))
      × ((print_newline s).col ≡ 0)
      × ((print_newline s).color ≡ s.color)
unfolding print_newline clear_row
newline_cursor s = (ground arith, ground arith, ground arith)

pub newline-IsValid : {s : Screen} → IsValid s → IsValid (print_newline s)
newline-IsValid {s} v = let c = newline_cursor s in ground arith

newline-SameBehind : (s : Screen) → SameBehind s.buffer (print_newline s).buffer
newline-SameBehind s j h = ground (arith, newline_buffer s j)

-- a character written at a cursor that stands on the screen
pub put_char_lem :
    (c : ℕ) (s : Screen)
    → s.row < num_rows
    → s.col < num_cols
    → ((j : ℕ)
        → (put_char c s).buffer j ≡ (
            if j == s.col + num_cols * s.row
            then record { character = c; color = s.color }
            else s.buffer j))
      × ((put_char c s).row ≡ s.row)
      × ((put_char c s).col ≡ s.col + 1)
      × ((put_char c s).color ≡ s.color)
unfolding put_char
put_char_lem c s hr hc =
    let w : (s.col + num_cols * s.row) % 2 ^ 64 ≡ s.col + num_cols * s.row = omega arith in
    let w' : (s.col + 1) % 2 ^ 64 ≡ s.col + 1 = omega arith in (λ j. rw w refl, refl, w', refl)

-- `print_char` leaves the cursor on the screen and writes to the screen's cells alone.
pub print_char-IsValid :
    (c : ℕ) {s : Screen}
    → IsValid s
    → IsValid (print_char c s) × SameBehind s.buffer (print_char c s).buffer
unfolding print_char
print_char-IsValid c {s} v = elim (Bool-cases (c == 10)) [
  | inl t ↦ rw t (newline-IsValid v, newline-SameBehind s)
  | inr t ↦ elim (Bool-cases (leb num_cols s.col)) [
    | inl wrap ↦
        let n = newline_cursor s in
        let nv = newline-IsValid v in
        let p = put_char_lem c (print_newline s) nv.row_in (omega arith) in
        rw (t, wrap)
          (
            record { row_in = omega (arith, nv.row_in); col_in = omega arith },
            λ j h. ground (arith, p.0 j, newline-SameBehind s j h, nv.row_in),
          )
    | inr fits ↦
        let p = put_char_lem c s v.row_in (ground arith) in
        rw (t, fits)
          (
            record { row_in = omega (arith, v.row_in); col_in = ground arith },
            λ j h. ground (arith, p.0 j, v.row_in),
          )
  ]
]

pub print_chars-IsValid :
    (cs : List ℕ) {s : Screen}
    → IsValid s
    → IsValid (print_chars cs s) × SameBehind s.buffer (print_chars cs s).buffer
unfolding print_chars
print_chars-IsValid [] v = (v, λ j h. refl)
print_chars-IsValid (c ∷ cs) v =
    let p = print_char-IsValid c v in
    let r = print_chars-IsValid cs p.0 in (r.0, λ j h. r.1 j h ∙ p.1 j h)

-- the value that register `r` of the display's controller holds after the port writes, the last one first:
-- 0x3D4 selects a register, and 0x3D5 writes to the one that is selected
abbrev pub selected : List (ℕ × ℕ) → ℕ
selected [] = 0
selected ((port, value) ∷ rest) = if port == 0x3D4 then value else selected rest

abbrev pub register : ℕ → List (ℕ × ℕ) → ℕ
register r [] = 0
register r ((port, value) ∷ rest) =
    if port == 0x3D5 && selected rest == r then value else register r rest

-- the position that the display shows: registers 0x0E and 0x0F hold its high and its low byte
abbrev pub shown : List (ℕ × ℕ) → ℕ
shown ports = register 0x0E ports * 256 + register 0x0F ports

-- `print_str` of any text, line ends and full rows included, leaves the cursor on the screen, and its position in
-- the two registers of the display's controller, and it writes to the screen's cells alone.
pub print_str-IsValid :
    (cs : List ℕ) {s : Screen}
    → IsValid s
    → let s' = print_str cs s in
      IsValid s' × SameBehind s.buffer s'.buffer × (shown s'.ports ≡ s'.row * num_cols + s'.col)
unfolding print_str
print_str-IsValid cs {s} v =
    let r = print_chars-IsValid cs v in
    (
      record { row_in = r.0.row_in; col_in = r.0.col_in },
      r.1,
      (let a = r.0.row_in in let b = r.0.col_in in omega arith),
    )

-- `print_clear_char` from a cursor on the screen keeps it there exactly when it does not stand at
-- the start of a row: there the unsigned column wraps to 2 ^ 64 - 1.
pub print_clear_char_iff : {s : Screen} → IsValid s → IsValid (print_clear_char s) ↔ (0 < s.col)
unfolding print_clear_char
print_clear_char_iff {s} v = (
  λ (h : IsValid (print_clear_char s)). (let a = h.col_in in let b = v.col_in in omega arith),
  λ k. record { row_in = v.row_in; col_in = (let b = v.col_in in omega arith) },
)
