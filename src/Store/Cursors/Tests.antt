-- ===== src/Store/Cursors/Tests.antt =====
-- A cursor, at concrete inputs.
use yente.Prelude.{Text, ℕ, ◌≡◌, refl, some, List, [], ◌∷◌, codes, lookup, same}
use yente.Store.Cells.Laws.{list_engine}
use yente.Store.Cells.{Engine}
use yente.Store.Cursors.{
  Cursor, Batch, IsFurther, AllOf, read, advance_all, read-advance_all_in_epoch,
}

abbrev engine : Engine Cursor (List (Text × Cursor))
engine = list_engine

abbrev hash : Text → Text
hash t = t

abbrev inbox : Text
inbox = codes "INBOX"

abbrev held : Cursor
held = record {
  mailbox = inbox;
  uid_validity = 7;
  last_uid = 10;
  updated_at = 1;
  resynced_at = some 1;
}

abbrev batch : ℕ → Batch
batch uid = record { uid_validity = 7; last_uid = uid; at = 2 }

read-advance_all_in_epoch_example :
    (c : Cursor) × (read engine hash
        (advance_all engine hash ((inbox, held) ∷ []) inbox (batch 12 ∷ batch 9 ∷ batch 12 ∷ []))
        inbox
      ≡ some c)
    × IsFurther 12 held c
unfolding AllOf read lookup same
read-advance_all_in_epoch_example =
    read-advance_all_in_epoch engine hash ((inbox, held) ∷ []) inbox held
      (batch 12 ∷ batch 9 ∷ batch 12 ∷ []) refl (refl, (refl, (refl, tt)))
