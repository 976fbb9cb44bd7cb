-- ===== src/Waitlist/Csv/Tests.antt =====
-- A table of one subscriber, at concrete inputs.
use yente.Prelude.{Text, ◌≡◌, some, List, [], ◌∷◌, codes, map}
use yente.Waitlist.Csv.{columns, headers_of, table_of, subscribers_to_csv}
use yente.Waitlist.Csv.RoundTrip.{read_csv, cells_of, read_csv-subscribers_to_csv}

abbrev records : List (List (Text × Text))
records = ((codes "name", codes "A \"B\", C") ∷ (codes "intent", codes "=1+1") ∷ []) ∷ []

read_csv-subscribers_to_csv_example :
    read_csv (subscribers_to_csv records)
    ≡ some (map cells_of (headers_of columns ∷ table_of records))
read_csv-subscribers_to_csv_example = read_csv-subscribers_to_csv records
