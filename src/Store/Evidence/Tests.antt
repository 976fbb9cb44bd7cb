-- ===== src/Store/Evidence/Tests.antt =====
-- A message, at concrete inputs.
use yente.Prelude.{Text, Option, some, List, [], ◌∷◌, codes}
use yente.Store.Cells.{Engine}
use yente.Store.Cells.Laws.{list_engine}
use yente.Store.Evidence.{Evidence, Call, records, updates_meta}

abbrev engine : Engine Evidence (List (Text × Evidence))
engine = list_engine

abbrev message : Option Text → Evidence
message text = record {
  kind = codes "message";
  content_hash = codes "h";
  text = text;
  meta = [];
  received_at = 3;
}

abbrev key : Text
key = codes "message:h"

abbrev calls : List Call
calls =
    records (message (some (codes "other")))
    ∷ updates_meta key ((codes "file", codes "a.pdf") ∷ [])
    ∷ updates_meta (codes "x") []
    ∷ []
