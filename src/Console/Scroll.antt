-- ===== src/Console/Scroll.antt =====
-- What the loops of print.c write: `clear_row`, and the scrolling of `print_newline`.
use keyhole_os.Prelude.{
  ℕ, zero, suc, ◌+◌, ◌-◌, ◌*◌, ◌%◌, ◌^◌, ◌≤◌, ◌<◌, ◌≡◌, ◌∙◌, ◌==◌, leb, ltb, ◌&&◌, if◌then◌else◌,
  arith, Bool-cases, inl, inr, Bool,
}
use keyhole_os.Console.{VgaChar, Buffer, put, num_cols, clear_cells, scroll_cells, scroll_rows}

-- from index `lo` to before index `hi`
abbrev pub between : (lo hi j : ℕ) → Bool
between lo hi j = leb lo j && ltb j hi

pub clear_cells_lem :
    (n i row j : ℕ) (v : VgaChar) (b : Buffer)
    → i + n ≤ num_cols
    → row < 2 ^ 32
    → clear_cells n i row v b j
      ≡ (if between (i + num_cols * row) (i + n + num_cols * row) j then v else b j)
unfolding clear_cells
clear_cells_lem zero i row j v b h k = ground arith
clear_cells_lem (suc n) i row j v b h k =
    let w : (i + num_cols * row) % 2 ^ 64 ≡ i + num_cols * row = omega arith in
    rw w (
      ground
        (arith, clear_cells_lem n (i + 1) row j v (put b (i + num_cols * row) v) (omega arith) k))

scroll_cells_lem :
    (n i crow j : ℕ) (b : Buffer)
    → i + n ≤ num_cols
    → 0 < crow
    → scroll_cells n i crow b j ≡ (
        if between (i + num_cols * (crow - 1)) (i + n + num_cols * (crow - 1)) j
        then b (j + num_cols)
        else b j)
unfolding scroll_cells
scroll_cells_lem zero i crow j b h k = ground arith
scroll_cells_lem (suc n) i crow j b h k =
    let to = i + num_cols * (crow - 1) in
    let ih =
      scroll_cells_lem n (i + 1) crow j (put b to (b (i + num_cols * crow))) (omega arith) k in
    let e : i + num_cols * crow ≡ to + num_cols = omega arith in
    ih ∙ elim (Bool-cases (j == to)) [
      | inl at ↦ let ej : j ≡ to = ground arith in rw (ej, e) (ground arith)
      | inr other ↦ ground arith
    ]

scroll_rows_lem :
    (n crow j : ℕ) (b : Buffer)
    → 0 < crow
    → scroll_rows n crow b j ≡ (
        if between (num_cols * (crow - 1)) (num_cols * (crow - 1 + n)) j
        then b (j + num_cols)
        else b j)
unfolding scroll_rows
scroll_rows_lem zero crow j b k = ground arith
scroll_rows_lem (suc n) crow j b k =
    let ih = scroll_rows_lem n (crow + 1) j (scroll_cells num_cols 0 crow b) (omega arith) in
    ground (
      arith,
      ih,
      scroll_cells_lem num_cols 0 crow j b (omega arith) k,
      scroll_cells_lem num_cols 0 crow (j + num_cols) b (omega arith) k,
    )

-- The scrolling of the whole screen moves every row up by one and touches nothing below.
pub scroll_lem :
    (j : ℕ) (b : Buffer) → scroll_rows 24 1 b j ≡ (if ltb j 1920 then b (j + num_cols) else b j)
scroll_lem j b = ground (arith, scroll_rows_lem 24 1 j b (omega arith))

-- Then the last row is cleared.
pub scrolled_lem :
    (j : ℕ) (v : VgaChar) (b : Buffer)
    → clear_cells num_cols 0 24 v (scroll_rows 24 1 b) j
      ≡ (if ltb j 1920 then b (j + num_cols) else if ltb j 2000 then v else b j)
scrolled_lem j v b =
    clear_cells_lem num_cols 0 24 j v (scroll_rows 24 1 b) (omega arith) (omega arith)
    ∙ rw (scroll_lem j b) (ground arith)
