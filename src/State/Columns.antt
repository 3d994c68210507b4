-- ===== src/State/Columns.antt =====
-- The counter of the columns of a table in src/ujo_state.c.
use libujo_c.Base.{
  ℕ, zero, suc, ◌+◌, ◌*◌, ◌%◌, ◌^◌, ◌<◌, ◌≡◌, refl, arith, leb, Bool-cases, inl, inr,
}
use libujo_c.State.{State, next_column}

-- The state after n cells of the rows of a table.
unfoldable pub cells : ℕ → State → State
unfolding next_column
cells zero s = s
cells (suc n) s = next_column (cells n s)

-- `column` is the place in its row of cell n: full rows of `columns` cells lie before it.
pub data InRow (s : State) (columns n : ℕ) : Type 0 where
  in_row :
      (rows : ℕ)
      → n ≡ rows * columns + s.column
      → s.column < columns
      → s.columns ≡ columns
      → InRow s columns n

next_column-InRow :
    (s : State) (columns n : ℕ)
    → columns < 2 ^ 32
    → InRow s columns n
    → InRow (next_column s) columns (suc n)
unfolding next_column
next_column-InRow s columns n h (in_row rows e below same) =
    elim (Bool-cases (leb s.columns ((s.column + 1) % 2 ^ 32))) [
      | inl full ↦ in_row (suc rows) (grind arith) (ground arith) same
      | inr more ↦ in_row rows (ground arith) (ground arith) same
    ]

-- In a table of at least one and less than 2 ^ 32 columns, from the first cell of a row on, the
-- column counter after n cells is n less the cells of some number of full rows, and below the
-- number of columns.
pub cells-InRow :
    (n : ℕ) (s : State)
    → 0 < s.columns
    → s.columns < 2 ^ 32
    → s.column ≡ 0
    → InRow (cells n s) s.columns n
unfolding cells
cells-InRow zero s some_column small first = in_row 0 (omega arith) (omega arith) refl
cells-InRow (suc n) s some_column small first =
    next_column-InRow (cells n s) s.columns n small (cells-InRow n s some_column small first)
