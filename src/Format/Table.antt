-- ===== src/Format/Table.antt =====
-- src/format/table.rs: cells of a fixed width and the lines of a table.
use slotd.Prelude.{
  ℕ, zero, suc, ◌-◌, Bool, List, [], ◌∷◌, ◌++◌, map, Option, none, some, Text, lit, leb,
  if◌then◌else◌, length,
}
use slotd.Strings.{join, repeat_char}

pub record TableColumn : Type 0 where
  pub header : Text
  pub width : ℕ
  pub right_align : Bool

unfoldable pub take : ℕ → Text → Text
take zero s = []
take (suc n) [] = []
take (suc n) (c ∷ s) = c ∷ take n s

unfoldable pub truncate : Text → ℕ → Text
unfolding take
truncate value width =
    if leb (length value) width then value else take (width - 1) value ++ b'-' ∷ []

-- The padding counts characters.
unfoldable pub format_cell : Text → ℕ → Bool → Text
unfolding truncate repeat_char
format_cell value width right_align =
    let shown = truncate value width in
    let padding = repeat_char b' ' (width - length shown) in
    if right_align then padding ++ shown else shown ++ padding

unfoldable pub header_cell : TableColumn → Text
unfolding format_cell
header_cell column = format_cell column.header column.width column.right_align

-- `columns[index]` panics behind the last column: no line is printed.
unfoldable pub cells : List TableColumn → List Text → Option (List Text)
unfolding format_cell
cells columns [] = some []
cells [] (value ∷ row) = none
cells (column ∷ columns) (value ∷ row) = elim (cells columns row) [
  | none ↦ none
  | some rest ↦ some (format_cell value column.width column.right_align ∷ rest)
]

unfoldable pub row_lines : List TableColumn → List (List Text) → Option (List Text)
unfolding cells join lit
row_lines columns [] = some []
row_lines columns (row ∷ rows) = elim (cells columns row) [
  | none ↦ none
  | some c ↦ elim (row_lines columns rows) [
    | none ↦ none
    | some ls ↦ some (join (lit " | ") c ∷ ls)
  ]
]

-- The lines printed, `none` where the call panics.
unfoldable pub print_table : List TableColumn → List (List Text) → Bool → Option (List Text)
unfolding row_lines header_cell join lit
print_table columns rows noheader = elim (row_lines columns rows) [
  | none ↦ none
  | some ls ↦
      some ((if noheader then [] else join (lit " | ") (map header_cell columns) ∷ []) ++ ls)
]
