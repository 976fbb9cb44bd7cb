-- ===== src/Waitlist/Inbound/Tests.antt =====
-- Messages, at concrete inputs.
use yente.Prelude.{
  Text, ◌≡◌, refl, Option, none, some, List, [], ◌∷◌, codes, lookup, insert, same, includes, Result,
  ok,
}
use yente.Domain.Address.{lower, trim, trim_start, trim_end, is_space}
use yente.Graph.Consent.{drop_text}
use yente.Store.Jobs.{starts_with}
use yente.Store.Cells.{Engine}
use yente.Store.Cells.Sums.{unique_engine, once, drop_text_of}
use yente.Waitlist.Capacity.{founder_developer, assert_cohort}
use yente.Waitlist.Repository.{
  Record, Draw, Error, Waitlist, claim_inbound, claimed_record, active_in_cohort, normalize_email,
  matches_email, matches_domain, is_plain,
}
use yente.Waitlist.Inbound.{
  Message, has_bounded, has_some, join_names, cohort_from_inbound, claim_seat_from_inbound,
}
use yente.Waitlist.Inbound.Kept.{claim_seat_from_inbound_kept}

abbrev letter : Message
letter = record {
  from = some (codes "Ada@x.org");
  subject = codes "Investor";
  attachment_count = 0;
  filenames = [];
}

-- An accented letter is no word character, so the pattern finds no boundary behind it.
accent_unread :
    cohort_from_inbound
      (record { from = none; subject = codes "my résumé"; attachment_count = 0; filenames = [] })
    ≡ none
unfolding cohort_from_inbound has_some has_bounded join_names lower drop_text starts_with
accent_unread = refl

abbrev engine : Engine Record (List (Text × Record))
engine = unique_engine

abbrev hash : Text → Text
hash t = t

abbrev draw : Draw
draw = record { now = 5; event_id = codes "e"; event_hash = codes "h" }

abbrev bob : Record
bob = claimed_record (codes "bob@y.org") founder_developer draw

abbrev start : Waitlist engine hash
start = record { subscribers = (codes "sub_bob@y.org", bob) ∷ []; events = [] }

abbrev waitlist_in : Option (Result Error (Waitlist engine hash)) → Waitlist engine hash
waitlist_in (some (ok w)) = w
waitlist_in _ = start

claim_seat_from_inbound_kept_example :
    engine.get
      (waitlist_in (claim_seat_from_inbound engine hash letter draw start)).subscribers
      (codes "sub_bob@y.org")
    ≡ some bob
unfolding claim_seat_from_inbound cohort_from_inbound has_some has_bounded join_names lower
    drop_text starts_with claim_inbound normalize_email matches_email matches_domain is_plain trim
    trim_start trim_end is_space assert_cohort includes same lookup insert active_in_cohort once
    drop_text_of
claim_seat_from_inbound_kept_example =
    claim_seat_from_inbound_kept engine hash letter draw start
      (waitlist_in (claim_seat_from_inbound engine hash letter draw start)) (codes "sub_bob@y.org")
      bob refl refl
