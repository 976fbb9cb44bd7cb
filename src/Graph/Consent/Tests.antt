-- ===== src/Graph/Consent/Tests.antt =====
-- Replies, at concrete inputs.
use yente.Prelude.{Text, ◌≡◌, refl, ◌↔◌, Option, none, some, codes}
use yente.Graph.Consent.{
  Answer, approve, decline, no_client, says, by_rule, by_model, interpret_consent, says_approve,
  says_decline, has_word, take_text, drop_text, contains, normalize, collapse,
}
use yente.Domain.Address.{lower, trim, trim_start, trim_end, is_space}
use yente.Graph.Consent.Address.{address_of, is_address, is_domain, all_plain, has_dot}
use yente.Graph.Consent.Grounded.{Declines, Approves, IsFor}
use yente.Graph.Consent.Readings.{interpret_consent_iff}
use yente.Prelude.{same}
use yente.Store.Jobs.{starts_with}

abbrev polite : Option Text
polite = some (codes "yes... no, pass ")

-- A word that declines goes before one that approves.
polite_pass :
    interpret_consent polite no_client ≡ record { decision = decline; quote = none; via = by_rule }
unfolding interpret_consent says_approve says_decline has_word take_text drop_text trim trim_start
    trim_end is_space starts_with
polite_pass = refl

abbrev glad : Option Text
glad = some (codes "Gladly,  connect us.")

abbrev reading : Answer
reading = says (some (codes "Approve")) (some (codes " connect us "))

glad_approval :
    interpret_consent glad reading
    ≡ record { decision = approve; quote = some (codes "connect us"); via = by_model }
unfolding interpret_consent says_approve says_decline has_word take_text drop_text trim trim_start
    trim_end is_space starts_with contains normalize collapse lower same
glad_approval = refl

interpret_consent_iff_example :
    (IsFor decline (some (codes "connect us")) (interpret_consent glad reading)
      ↔ Declines (codes "Gladly,  connect us.") reading (some (codes "connect us")))
    × (IsFor approve (some (codes "connect us")) (interpret_consent glad reading)
        ↔ Approves (codes "Gladly,  connect us.") reading (some (codes "connect us")))
unfolding trim trim_start trim_end is_space
interpret_consent_iff_example = interpret_consent_iff glad reading (some (codes "connect us"))

person_address : address_of (codes "person:Ada@x.org") ≡ some (codes "ada@x.org")
unfolding address_of starts_with drop_text is_address is_domain all_plain has_dot is_space lower
person_address = refl

no_top_level : address_of (codes "person:ada@x") ≡ none
unfolding address_of starts_with drop_text is_address is_domain all_plain has_dot is_space lower
no_top_level = refl

no_person : address_of (codes "company:x.org") ≡ none
unfolding address_of starts_with
no_person = refl
