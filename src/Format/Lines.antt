-- ===== src/Format/Lines.antt =====
-- The lines that `print_table` of src/format/table.rs prints.
use slotd.Prelude.{
  ℕ, zero, suc, ◌+◌, ◌-◌, ◌≤◌, ◌≡◌, refl, subst, sym, ◌∙◌, Bool, true, false, List, [], ◌∷◌, ◌++◌,
  map, Option, some, Text, lit, leb, length, length-append, All, arith, Bool-cases, inl, inr,
  if◌then◌else◌,
}
use slotd.Strings.{join, repeat_char}
use slotd.Format.Table.{
  TableColumn, take, truncate, format_cell, header_cell, cells, row_lines, print_table,
}

length-repeat_char : (c n : ℕ) → length (repeat_char c n) ≡ n
unfolding repeat_char
length-repeat_char c zero = refl
length-repeat_char c (suc n) = omega (arith, length-repeat_char c n)

length-take : (n : ℕ) (s : Text) → n ≤ length s → length (take n s) ≡ n
unfolding take
length-take zero s h = refl
length-take (suc n) [] h = omega arith
length-take (suc n) (c ∷ s) h = omega (arith, length-take n s (omega arith))

length-truncate : (value : Text) (width : ℕ) → 1 ≤ width → length (truncate value width) ≤ width
unfolding truncate
length-truncate value width h = elim (Bool-cases (leb (length value) width)) [
  | inl e ↦ rw e (ground arith)
  | inr e ↦
      rw
        (
          e,
          length-append (take (width - 1) value) (b'-' ∷ []),
          length-take (width - 1) value (ground arith),
        )
        (ground arith)
]

-- A cell of a column has as many characters as the column is wide.
pub length-format_cell :
    (value : Text) (width : ℕ) (right_align : Bool)
    → 1 ≤ width
    → length (format_cell value width right_align) ≡ width
unfolding format_cell
length-format_cell value width true h =
    rw
      (
        length-append (repeat_char b' ' (width - length (truncate value width)))
            (truncate value width),
        length-repeat_char b' ' (width - length (truncate value width)),
      )
      (omega (arith, length-truncate value width h))
length-format_cell value width false h =
    rw
      (
        length-append (truncate value width)
            (repeat_char b' ' (width - length (truncate value width))),
        length-repeat_char b' ' (width - length (truncate value width)),
      )
      (omega (arith, length-truncate value width h))

-- The columns, and the ` | ` between them.
abbrev pub line_width : List TableColumn → ℕ
line_width [] = 0
line_width (c ∷ []) = c.width
line_width (c ∷ d ∷ cs) = c.width + (3 + line_width (d ∷ cs))

abbrev pub IsShown : TableColumn → Type 0
IsShown c = 1 ≤ c.width

-- The cells of a line, each as wide as its column.
abbrev Fits : List TableColumn → List Text → Type 0
Fits [] [] = Unit
Fits [] (t ∷ ts) = ⊥
Fits (c ∷ cs) [] = ⊥
Fits (c ∷ cs) (t ∷ ts) = (length t ≡ c.width) × Fits cs ts

length-bar : length (lit " | ") ≡ 3
unfolding lit
length-bar = refl

bar_between :
    (t rest : Text) (a w : ℕ)
    → length t ≡ a
    → length rest ≡ w
    → length (t ++ lit " | " ++ rest) ≡ a + (3 + w)
bar_between t rest a w h k =
    omega (arith, length-append (t ++ lit " | ") rest, length-append t (lit " | "), length-bar)

length-join :
    (columns : List TableColumn) (row : List Text)
    → Fits columns row
    → length (join (lit " | ") row) ≡ line_width columns
unfolding join
length-join [] [] h = refl
length-join [] (t ∷ ts) h = elim h [ ]
length-join (c ∷ cs) [] h = elim h [ ]
length-join (c ∷ []) (t ∷ []) h = h.0
length-join (c ∷ []) (t ∷ u ∷ ts) h = elim h.1 [ ]
length-join (c ∷ d ∷ cs) (t ∷ []) h = elim h.1 [ ]
length-join (c ∷ d ∷ cs) (t ∷ u ∷ ts) h =
    bar_between t (join (lit " | ") (u ∷ ts)) c.width (line_width (d ∷ cs)) h.0
      (length-join (d ∷ cs) (u ∷ ts) h.1)

header_cell-Fits :
    (columns : List TableColumn) → All IsShown columns → Fits columns (map header_cell columns)
unfolding header_cell
header_cell-Fits [] h = tt
header_cell-Fits (c ∷ cs) h =
    (length-format_cell c.header c.width c.right_align h.0, header_cell-Fits cs h.1)

cells-Fits :
    (columns : List TableColumn) (row : List Text)
    → All IsShown columns
    → length row ≡ length columns
    → (line : List Text) × (cells columns row ≡ some line) × Fits columns line
unfolding cells
cells-Fits [] [] h e = ([], refl, tt)
cells-Fits [] (t ∷ row) h e = ground arith
cells-Fits (c ∷ cs) [] h e = ground arith
cells-Fits (c ∷ cs) (t ∷ row) h e =
    let (line, found, fits) = cells-Fits cs row h.1 (omega arith) in
    (
      format_cell t c.width c.right_align ∷ line,
      rw found refl,
      (length-format_cell t c.width c.right_align h.0, fits),
    )

row_lines-cons :
    (columns : List TableColumn) (row line : List Text) (rows : List (List Text)) (ls : List Text)
    → cells columns row ≡ some line
    → row_lines columns rows ≡ some ls
    → row_lines columns (row ∷ rows) ≡ some (join (lit " | ") line ∷ ls)
unfolding row_lines
row_lines-cons columns row line rows ls c r = cc

print_table-shown :
    (columns : List TableColumn) (rows : List (List Text)) (ls : List Text)
    → row_lines columns rows ≡ some ls
    → (print_table columns rows true ≡ some ls)
      × (print_table columns rows false ≡ some (join (lit " | ") (map header_cell columns) ∷ ls))
unfolding print_table
print_table-shown columns rows ls r = (cc, cc)

row_lines-width :
    (columns : List TableColumn) (rows : List (List Text))
    → All IsShown columns
    → All (λ row. length row ≡ length columns) rows
    → (ls : List Text) × (row_lines columns rows ≡ some ls)
      × (length ls ≡ length rows)
      × All (λ l. length l ≡ line_width columns) ls
unfolding row_lines
row_lines-width columns [] h e = ([], refl, refl, tt)
row_lines-width columns (row ∷ rows) h e =
    let (line, found, fits) = cells-Fits columns row h e.0 in
    let (ls, rest, count, wide) = row_lines-width columns rows h e.1 in
    (
      join (lit " | ") line ∷ ls,
      row_lines-cons columns row line rows ls found rest,
      omega arith,
      (length-join columns line fits, wide),
    )

-- What is printed: one line for each row, and the header unless it is left out, all of one width.
abbrev pub IsTable : List TableColumn → (rows : ℕ) → (noheader : Bool) → Option (List Text) → Type 0
IsTable columns rows noheader printed =
    (ls : List Text) × (printed ≡ some ls)
    × (length ls ≡ rows + (if noheader then 0 else 1))
    × All (λ l. length l ≡ line_width columns) ls

-- The table of columns at least one character wide and of rows with as many values as there are
-- columns is printed without a panic: a line for each row, behind a header line unless `noheader`
-- is set, and every line has exactly as many characters as the columns and the bars between them take.
pub print_table-IsTable :
    (columns : List TableColumn) (rows : List (List Text)) (noheader : Bool)
    → All IsShown columns
    → All (λ row. length row ≡ length columns) rows
    → IsTable columns (length rows) noheader (print_table columns rows noheader)
unfolding print_table
print_table-IsTable columns rows true h e =
    let (ls, found, count, wide) = row_lines-width columns rows h e in
    (ls, (print_table-shown columns rows ls found).0, omega arith, wide)
print_table-IsTable columns rows false h e =
    let (ls, found, count, wide) = row_lines-width columns rows h e in
    (
      join (lit " | ") (map header_cell columns) ∷ ls,
      (print_table-shown columns rows ls found).1,
      omega arith,
      (length-join columns (map header_cell columns) (header_cell-Fits columns h), wide),
    )

module _ {ℓ κ} {A : Type ℓ} {B : Type κ} (f : A → B) where
  length-map : (xs : List A) → length (map f xs) ≡ length xs
  length-map [] = refl
  length-map (x ∷ xs) = omega (arith, length-map xs)

  map-All {μ} : (P : B → Type μ) (xs : List A) → ((x : A) → P (f x)) → All P (map f xs)
  map-All P [] h = tt
  map-All P (x ∷ xs) h = (h x, map-All P xs h)

-- The table of one row for each element, with a value of it for each field.
pub print_table-rows {ℓ κ} :
    {A : Type ℓ} {F : Type κ} (columns : List TableColumn) (value : A → F → Text) (fields : List F)
    (items : List A) (noheader : Bool)
    → All IsShown columns × (length columns ≡ length fields)
    → IsTable columns
        (length items)
        noheader
        (print_table columns (map (λ a. map (value a) fields) items) noheader)
print_table-rows columns value fields items noheader shown =
    subst
      (λ n.
        IsTable columns n noheader
          (print_table columns (map (λ a. map (value a) fields) items) noheader))
      (length-map (λ a. map (value a) fields) items)
      (print_table-IsTable columns (map (λ a. map (value a) fields) items) noheader shown.0 (
        map-All (λ a. map (value a) fields) (λ row. length row ≡ length columns) items
          (λ a. length-map (value a) fields ∙ sym shown.1)))
