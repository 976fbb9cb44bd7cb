-- ===== src/Waitlist/Csv/RoundTrip.antt =====
-- A reader of quoted cells gets every cell back, and no cell is a formula.
use yente.Prelude.{
  Text, ◌≡◌, refl, sym, ap, ◌∙◌, Bool, false, Option, none, some, List, [], ◌∷◌, ◌++◌,
  if◌then◌else◌, ◌==◌, arith, map,
}
use mathlib.Core.List.{append_assoc, append-nil}
use yente.Waitlist.Csv.{
  is_formula_prefix, safe_cell, double_quotes, quote, columns, headers_of, fields_of, join_cells,
  lines_of, table_of, subscribers_to_csv,
}

-- Where a reader stands: before a cell, in its quotes, behind a quote, behind a carriage return.
pub data Mode : Type 0 where
  begins inside after_quote after_return : Mode

-- A reader of RFC 4180 whose cells are all quoted, with the cell, the row and the rows so far.
unfoldable pub read : Mode → Text → List Text → List (List Text) → Text → Option (List (List Text))
read begins cell [] rows [] = some rows
read begins cell (x ∷ row) rows [] = none
read inside cell row rows [] = none
read after_quote cell row rows [] = none
read after_return cell row rows [] = none
read begins cell row rows (c ∷ t) = if c == 34 then read inside [] row rows t else none
read inside cell row rows (c ∷ t) =
    if c == 34 then read after_quote cell row rows t else read inside (cell ++ c ∷ []) row rows t
read after_quote cell row rows (c ∷ t) =
    if c == 34
    then read inside (cell ++ c ∷ []) row rows t
    else (if c == 44
        then read begins [] (row ++ cell ∷ []) rows t
        else (if c == 13 then read after_return [] (row ++ cell ∷ []) rows t else none))
read after_return cell row rows (c ∷ t) =
    if c == 10 then read begins [] [] (rows ++ row ∷ []) t else none

unfoldable pub read_csv : Text → Option (List (List Text))
read_csv t = read begins [] [] [] t

-- Inside its quotes a cell is read to its end.
read-double_quotes :
    (v cell : Text) (row : List Text) (rows : List (List Text)) (t : Text)
    → read inside cell row rows (double_quotes v ++ t) ≡ read inside (cell ++ v) row rows t
unfolding read double_quotes
read-double_quotes [] cell row rows t = ap (λ x. read inside x row rows t) (sym (append-nil cell))
read-double_quotes (c ∷ v) cell row rows t =
    ground (arith, read-double_quotes v (cell ++ c ∷ []) row rows t, append_assoc cell (c ∷ []) v)

read-quote :
    (v : Option Text) (cell : Text) (row : List Text) (rows : List (List Text)) (t : Text)
    → read begins cell row rows (quote v ++ t) ≡ read after_quote (safe_cell v) row rows t
unfolding read quote
read-quote v cell row rows t =
    ap (λ x. read inside [] row rows x) (append_assoc (double_quotes (safe_cell v)) (34 ∷ []) t)
    ∙ read-double_quotes (safe_cell v) [] row rows (34 ∷ t)

unfoldable pub cells_of : List (Option Text) → List Text
cells_of [] = []
cells_of (v ∷ rest) = safe_cell v ∷ cells_of rest

read-join_cells :
    (v : Option Text) (rest : List (Option Text)) (cell : Text) (row : List Text)
    (rows : List (List Text)) (t : Text)
    → read begins cell row rows (join_cells (v ∷ rest) ++ 13 ∷ 10 ∷ t)
      ≡ read begins [] [] (rows ++ (row ++ cells_of (v ∷ rest)) ∷ []) t
unfolding read join_cells cells_of
read-join_cells v [] cell row rows t = read-quote v cell row rows (13 ∷ 10 ∷ t)
read-join_cells v (w ∷ rest) cell row rows t =
    ap (λ x. read begins cell row rows x)
      (append_assoc (quote v) (44 ∷ join_cells (w ∷ rest)) (13 ∷ 10 ∷ t))
    ∙ read-quote v cell row rows (44 ∷ (join_cells (w ∷ rest) ++ 13 ∷ 10 ∷ t))
    ∙ read-join_cells w rest [] (row ++ safe_cell v ∷ []) rows t
    ∙ ap (λ x. read begins [] [] (rows ++ x ∷ []) t)
        (append_assoc row (safe_cell v ∷ []) (cells_of (w ∷ rest)))

-- A row has at least one cell.
unfoldable pub AllFilled : List (List (Option Text)) → Type 0
AllFilled [] = Unit {0}
AllFilled ([] ∷ rest) = Bool.true ≡ false
AllFilled ((v ∷ vs) ∷ rest) = AllFilled rest

read-lines_of :
    (table : List (List (Option Text))) (rows : List (List Text))
    → AllFilled table
    → read begins [] [] rows (lines_of table) ≡ some (rows ++ map cells_of table)
unfolding read lines_of AllFilled
read-lines_of [] rows h = ap some (sym (append-nil rows))
read-lines_of ([] ∷ rest) rows h = absurd (ground arith)
read-lines_of ((v ∷ vs) ∷ rest) rows h =
    read-join_cells v vs [] [] rows (lines_of rest)
    ∙ read-lines_of rest (rows ++ cells_of (v ∷ vs) ∷ []) h
    ∙ ap some (append_assoc rows (cells_of (v ∷ vs) ∷ []) (map cells_of rest))

table_of-AllFilled : (records : List (List (Text × Text))) → AllFilled (table_of records)
unfolding table_of AllFilled fields_of
table_of-AllFilled [] = tt
table_of-AllFilled (r ∷ rest) = table_of-AllFilled rest

-- Every record is read back as the texts of its columns, whatever quotes, commas and line breaks they
-- hold, each made safe; a row of headers comes first.
pub read_csv-subscribers_to_csv :
    (records : List (List (Text × Text)))
    → read_csv (subscribers_to_csv records)
      ≡ some (map cells_of (headers_of columns ∷ table_of records))
unfolding read_csv subscribers_to_csv headers_of AllFilled
read_csv-subscribers_to_csv records =
    read-lines_of (headers_of columns ∷ table_of records) [] (table_of-AllFilled records)

abbrev pub starts_formula : Text → Bool
starts_formula [] = false
starts_formula (c ∷ cs) = is_formula_prefix c

-- No cell that a reader gets begins a formula, and one that began none is the text of its field.
pub safe_cell-safe :
    (text : Text)
    → (starts_formula (safe_cell (some text)) ≡ false)
      × (safe_cell (some text) ≡ (if starts_formula text then 39 ∷ text else text))
unfolding safe_cell
safe_cell-safe [] = (refl, refl)
safe_cell-safe (c ∷ cs) = (ground arith, ground arith)
