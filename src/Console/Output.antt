-- ===== src/Console/Output.antt =====
-- What `print_str` of print.c shows.
use keyhole_os.Prelude.{
  ℕ, suc, ◌+◌, ◌-◌, ◌*◌, ◌≤◌, ◌<◌, ◌≡◌, ◌≢◌, refl, ◌∙◌, ◌==◌, leb, if◌then◌else◌, arith, Bool-cases,
  inl, inr, List, [], ◌∷◌, length, get_or, dec_lt, false,
}
use keyhole_os.Console.{
  VgaChar, Screen, num_cols, num_rows, put_char, print_char, print_chars, print_str,
}
use keyhole_os.Console.Scroll.{between}
use keyhole_os.Console.Bounds.{put_char_lem}

abbrev pub NoLineEnd : List ℕ → Type 0
NoLineEnd [] = Unit {0}
NoLineEnd (c ∷ cs) = (c ≢ 10) × NoLineEnd cs

-- The cells from the cursor of `s` on show `cs` in its colour, no other cell has changed, and the
-- cursor stands behind the text.
pub record Shows (s : Screen) (cs : List ℕ) (s' : Screen) : Type 0 where
  pub cells :
      (j : ℕ)
      → s'.buffer j ≡ (
          if between (s.col + num_cols * s.row) (s.col + length cs + num_cols * s.row) j
          then record { character = get_or cs (j - (s.col + num_cols * s.row)) 0; color = s.color }
          else s.buffer j)
  pub row_same : s'.row ≡ s.row
  pub col_moved : s'.col ≡ s.col + length cs
  pub color_same : s'.color ≡ s.color

print_char_line : (c : ℕ) (s : Screen) → c ≢ 10 → s.col < num_cols → print_char c s ≡ put_char c s
unfolding print_char
print_char_line c s ne h =
    let a : (c == 10) ≡ false = ground arith in
    let b : leb num_cols s.col ≡ false = ground arith in rw (a, b) refl

cons_cell :
    (c at j : ℕ) (cs : List ℕ) (col : ℕ) (old : VgaChar)
    → (if between (at + 1) (at + 1 + length cs) j
        then record { character = get_or cs (j - (at + 1)) 0; color = col }
        else if j == at
        then record { character = c; color = col }
        else old)
      ≡ (if between at (at + suc (length cs)) j
          then record { character = get_or (c ∷ cs) (j - at) 0; color = col }
          else old)
cons_cell c at j cs col old = elim (dec_lt at j) [
  | yes lt ↦ let e : j - at ≡ suc (j - (at + 1)) = omega arith in rw e (ground arith)
  | no ge ↦ elim (Bool-cases (j == at)) [
    | inl eq ↦ let e : j - at ≡ 0 = ground arith in rw e (ground arith)
    | inr ne ↦ ground arith
  ]
]

print_chars-Shows :
    (cs : List ℕ) (s : Screen)
    → NoLineEnd cs
    → s.row < num_rows
    → s.col + length cs ≤ num_cols
    → Shows s cs (print_chars cs s)
unfolding print_chars
print_chars-Shows [] s n hr hc = record {
  cells = λ j. ground arith;
  row_same = refl;
  col_moved = omega arith;
  color_same = refl;
}
print_chars-Shows (c ∷ cs) s n hr hc =
    let p = put_char_lem c s hr (omega arith) in
    let r = print_chars-Shows cs (put_char c s) n.1 (omega arith) (omega arith) in
    let at = s.col + num_cols * s.row in
    rw (print_char_line c s n.0 (omega arith)) (record {
      cells = λ j.
          r.cells j
          ∙ rw (p.0 j, p.1, p.2, p.3)
              (let e : s.col + 1 + num_cols * s.row ≡ at + 1 = omega arith in
                let e2 : s.col + 1 + length cs + num_cols * s.row ≡ at + 1 + length cs =
                  omega arith in
                let e3 : s.col + suc (length cs) + num_cols * s.row ≡ at + suc (length cs) =
                  omega arith in
                rw (e, e2, e3) (cons_cell c at j cs s.color (s.buffer j)));
      row_same = r.row_same ∙ p.1;
      col_moved = omega (arith, r.col_moved);
      color_same = r.color_same ∙ p.3;
    })

-- `print_str` of a text with no line end that fits on the cursor's row shows it from the cursor on
-- in the current colour, changes no other cell and leaves the cursor behind it.
pub print_str-Shows :
    (cs : List ℕ) (s : Screen)
    → NoLineEnd cs
    → s.row < num_rows
    → s.col + length cs ≤ num_cols
    → Shows s cs (print_str cs s)
unfolding print_str
print_str-Shows cs s n hr hc =
    let r = print_chars-Shows cs s n hr hc in
    record {
      cells = r.cells;
      row_same = r.row_same;
      col_moved = r.col_moved;
      color_same = r.color_same;
    }
