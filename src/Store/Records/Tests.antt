-- ===== src/Store/Records/Tests.antt =====
-- A message that arrives twice, once without its brackets.
use yente.Prelude.{Text, ℕ, ◌≡◌, none, List, [], ◌∷◌, codes, lookup}
use yente.Store.Cells.{Engine}
use yente.Store.Cells.Laws.{list_engine, or_else}
use yente.Store.Records.{Inbound, Message}
use yente.Store.Records.First.{receive_all, first_under, get-receive_all}

abbrev hashed : Text → Text
hashed t = 35 ∷ t

abbrev engine : Engine Message (List (Text × Message))
engine = list_engine

abbrev arrived : Text → ℕ → Inbound
arrived id at = record {
  rfc_message_id = id;
  thread_id = none;
  from = codes "ada@example.com";
  to = [];
  subject = none;
  received_at = at;
  raw = none;
}

abbrev twice : List Inbound
twice = arrived (codes "<m1@host>") 1 ∷ arrived (codes "m1@host") 2 ∷ []

get-receive_all_example :
    lookup (codes "m1@host") (receive_all engine hashed twice [])
    ≡ or_else (lookup (codes "m1@host") []) (first_under engine hashed (codes "m1@host") twice)
get-receive_all_example = get-receive_all engine hashed twice [] (codes "m1@host")
