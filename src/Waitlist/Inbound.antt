-- ===== src/Waitlist/Inbound.antt =====
-- src/waitlist/inbound.js: a seat that is claimed by writing in. `addressFromInbound`, the first match of
-- a pattern of an address, gives the sender that is an argument here.
pub mod Kept
mod Tests
use yente.Prelude.{
  Text, ℕ, Bool, true, false, not, ◌&&◌, ◌||◌, Option, none, some, List, [], ◌∷◌, ◌++◌, codes, map,
  length, if◌then◌else◌, ◌==◌, ltb, Result, ok, err, arith, ◌≡◌, refl, ◌⊎◌, inl, inr,
}
use yente.Domain.Address.{lower}
use yente.Graph.Consent.{is_word, drop_text}
use yente.Store.Jobs.{starts_with}
use yente.Store.Cells.{Engine}
use yente.Waitlist.Capacity.{founder_developer, investor_employer}
use yente.Waitlist.Repository.{Record, Draw, Waitlist, Error, claim_inbound}

abbrev at_word : Text → Bool
at_word [] = false
at_word (c ∷ cs) = is_word c

abbrev ends_in_word : Text → Bool
ends_in_word [] = false
ends_in_word (c ∷ []) = is_word c
ends_in_word (c ∷ d ∷ cs) = ends_in_word (d ∷ cs)

abbrev differ : Bool → Bool → Bool
differ true b = not b
differ false b = b

-- `/\bword\b/.test(text)`: a boundary is where exactly one side is a letter of ASCII, a digit or `_`.
unfoldable pub has_bounded : Text → Bool → Text → Bool
has_bounded word before [] = false
has_bounded word before (c ∷ cs) =
    (differ before (at_word word)
      && (starts_with word (c ∷ cs)
          && differ (ends_in_word word) (at_word (drop_text (length word) (c ∷ cs)))))
    || has_bounded word (is_word c) cs

unfoldable pub has_some : List Text → Text → Bool
has_some [] text = false
has_some (w ∷ ws) text = has_bounded w false text || has_some ws text

abbrev pub backer_words : List Text
backer_words = codes "investor" ∷ codes "employer" ∷ codes "acquirer" ∷ codes "backer" ∷ []

abbrev pub builder_words : List Text
builder_words =
    codes "developer"
    ∷ codes "founder"
    ∷ codes "builder"
    ∷ codes "resume"
    ∷ codes "résumé"
    ∷ codes "cv"
    ∷ codes "portfolio"
    ∷ []

pub record Message : Type 0 where
  pub from : Option Text
  pub subject : Text
  pub attachment_count : ℕ
  pub filenames : List Text

unfoldable pub join_names : List Text → Text
join_names [] = []
join_names (f ∷ []) = f
join_names (f ∷ g ∷ fs) = f ++ 32 ∷ join_names (g ∷ fs)

abbrev pub words_of : Message → Text
words_of m = map lower (m.subject ++ 32 ∷ join_names m.filenames)

abbrev pub has_attachment : Message → Bool
has_attachment m = ltb 0 m.attachment_count || ltb 0 (length m.filenames)

unfoldable pub cohort_from_inbound : Message → Option Text
cohort_from_inbound m =
    if has_some backer_words (words_of m)
    then some investor_employer
    else (if has_some builder_words (words_of m) || has_attachment m
        then some founder_developer
        else none)

module _ {Db : Type 0} (e : Engine Record Db) (digest : Text → Text) where
  -- The waitlist afterwards, unless nothing was claimed.
  abbrev pub claim_for :
      Option Text
      → Option Text
      → Draw
      → Waitlist e digest
      → Option (Result Error (Waitlist e digest))
  claim_for none cohort d w = none
  claim_for (some email) none d w = none
  claim_for (some email) (some cohort) d w = some (claim_inbound e digest email cohort d w)

  unfoldable pub claim_seat_from_inbound :
      Message → Draw → Waitlist e digest → Option (Result Error (Waitlist e digest))
  claim_seat_from_inbound m d w = claim_for m.from (cohort_from_inbound m) d w
