-- ===== src/Waitlist/Csv.antt =====
-- src/waitlist/csv.js: the subscribers as a table for a spreadsheet. A record is its fields as texts.
pub mod RoundTrip
mod Tests
use yente.Prelude.{
  Text, ℕ, Bool, ◌||◌, Option, none, some, List, [], ◌∷◌, ◌++◌, codes, lookup, if◌then◌else◌, ◌==◌,
}

-- FORMULA_PREFIX
abbrev pub is_formula_prefix : ℕ → Bool
is_formula_prefix c = c == 61 || (c == 43 || (c == 45 || c == 64))

abbrev pub safe_text : Text → Text
safe_text [] = []
safe_text (c ∷ cs) = if is_formula_prefix c then 39 ∷ c ∷ cs else c ∷ cs

unfoldable pub safe_cell : Option Text → Text
safe_cell none = []
safe_cell (some text) = safe_text text

-- `text.replaceAll('"', '""')`
unfoldable pub double_quotes : Text → Text
double_quotes [] = []
double_quotes (c ∷ cs) = if c == 34 then 34 ∷ 34 ∷ double_quotes cs else c ∷ double_quotes cs

unfoldable pub quote : Option Text → Text
quote value = 34 ∷ (double_quotes (safe_cell value) ++ 34 ∷ [])

-- The header of a column and the key of its field.
abbrev pub columns : List (Text × Text)
columns =
    (codes "subscriber_id", codes "_id")
    ∷ (codes "name", codes "name")
    ∷ (codes "email", codes "email")
    ∷ (codes "cohort", codes "cohort")
    ∷ (codes "intent", codes "intent")
    ∷ (codes "status", codes "status")
    ∷ (codes "created_at", codes "created_at")
    ∷ (codes "updated_at", codes "updated_at")
    ∷ (codes "revision", codes "revision")
    ∷ (codes "source", codes "source")
    ∷ (codes "record_hash", codes "_hash")
    ∷ (codes "caused_by_event_id", codes "caused_by_event_id")
    ∷ (codes "caused_by_event_hash", codes "caused_by_event_hash")
    ∷ []

unfoldable pub headers_of : List (Text × Text) → List (Option Text)
headers_of [] = []
headers_of ((header, key) ∷ rest) = some header ∷ headers_of rest

unfoldable pub fields_of : List (Text × Text) → List (Text × Text) → List (Option Text)
fields_of [] r = []
fields_of ((header, key) ∷ rest) r = lookup key r ∷ fields_of rest r

-- `cells.map(quote).join(",")`
unfoldable pub join_cells : List (Option Text) → Text
join_cells [] = []
join_cells (v ∷ []) = quote v
join_cells (v ∷ w ∷ rest) = quote v ++ 44 ∷ join_cells (w ∷ rest)

unfoldable pub lines_of : List (List (Option Text)) → Text
lines_of [] = []
lines_of (cells ∷ rest) = join_cells cells ++ 13 ∷ 10 ∷ lines_of rest

unfoldable pub table_of : List (List (Text × Text)) → List (List (Option Text))
table_of [] = []
table_of (r ∷ rest) = fields_of columns r ∷ table_of rest

-- Each row with the line break after it.
unfoldable pub subscribers_to_csv : List (List (Text × Text)) → Text
subscribers_to_csv records = lines_of (headers_of columns ∷ table_of records)
