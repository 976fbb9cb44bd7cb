-- ===== src/Graph/Consent.antt =====
-- src/graph/consent.js: interpretConsent, what one reply of a party says. The model's answer, if there
-- is a client, is an argument; `parseJsonBlock` of it gives the two fields or fails. Letters are ASCII.
pub mod Words
pub mod Address
pub mod Grounded
pub mod Readings
mod Tests
use yente.Prelude.{
  Text, ℕ, zero, suc, ◌+◌, ◌-◌, Bool, true, false, not, ◌&&◌, ◌||◌, Option, none, some, List, [],
  ◌∷◌, codes, leb, same, map, length, if◌then◌else◌, ◌==◌,
}
use yente.Domain.Address.{lower, trim, is_space}
use yente.Store.Jobs.{starts_with}

pub data Choice : Type 0 where
  unclear approve decline : Choice

pub data Via : Type 0 where
  by_empty by_rule no_model model_error malformed by_model ungrounded : Via

pub record Verdict : Type 0 where
  pub decision : Choice
  pub quote : Option Text
  pub via : Via

pub data Answer : Type 0 where
  no_client failed unreadable : Answer
  says : Option Text → Option Text → Answer

abbrev pub upper : ℕ → ℕ
upper c = if leb 97 c && leb c 122 then c - 32 else c

-- `text.slice(0, n)`
unfoldable pub take_text : ℕ → Text → Text
take_text zero t = []
take_text (suc n) [] = []
take_text (suc n) (c ∷ cs) = c ∷ take_text n cs

unfoldable pub drop_text : ℕ → Text → Text
drop_text zero t = t
drop_text (suc n) [] = []
drop_text (suc n) (c ∷ cs) = drop_text n cs

-- `\w`
abbrev pub is_word : ℕ → Bool
is_word c =
    (leb 48 c && leb c 57) || ((leb 65 c && leb c 90) || ((leb 97 c && leb c 122) || (c == 95)))

abbrev pub at_word : Text → Bool
at_word [] = false
at_word (c ∷ cs) = is_word c

-- `/\bword\b/.test(text)`, after a character that is a word character or not.
unfoldable pub has_word : Text → Bool → Text → Bool
has_word word before [] = false
has_word word before (c ∷ cs) =
    (not before && (starts_with word (c ∷ cs) && not (at_word (drop_text (length word) (c ∷ cs)))))
    || has_word word (is_word c) cs

unfoldable pub says_approve : Text → Bool
says_approve head = has_word (codes "INTRODUCE") false head || has_word (codes "YES") false head

unfoldable pub says_decline : Text → Bool
says_decline head =
    has_word (codes "PASS") false head
    || (has_word (codes "STOP") false head || has_word (codes "UNSUBSCRIBE") false head)

-- `text.replace(/\s+/g, " ")`
unfoldable pub collapse : Bool → Text → Text
collapse after [] = []
collapse after (c ∷ cs) = elim (is_space c) [
  | true ↦ if after then collapse true cs else 32 ∷ collapse true cs
  | false ↦ c ∷ collapse false cs
]

unfoldable pub normalize : Text → Text
normalize v = trim (collapse false (map lower v))

-- `text.includes(part)`
unfoldable pub contains : Text → Text → Bool
contains part [] = starts_with part []
contains part (c ∷ cs) = starts_with part (c ∷ cs) || contains part cs

abbrev pub string_of : Option Text → Text
string_of none = []
string_of (some t) = t

-- `reply.slice(0, 200).toUpperCase()`
abbrev pub head_of : Text → Text
head_of reply = map upper (take_text 200 reply)

abbrev pub unclear_via : Via → Verdict
unclear_via via = record { decision = unclear; quote = none; via = via }

abbrev pub is_nothing : Text → Bool
is_nothing [] = true
is_nothing (c ∷ cs) = false

abbrev pub ground_quote : Text → Choice → Text → Verdict
ground_quote reply choice quote =
    if is_nothing quote || not (contains (normalize quote) (normalize reply))
    then unclear_via ungrounded
    else record { decision = choice; quote = some quote; via = by_model }

abbrev pub read_answer : Text → Answer → Verdict
read_answer reply no_client = unclear_via no_model
read_answer reply failed = unclear_via model_error
read_answer reply unreadable = unclear_via malformed
read_answer reply (says decision quote) =
    if same (map lower (string_of decision)) (codes "approve")
    then ground_quote reply approve (trim (string_of quote))
    else (if same (map lower (string_of decision)) (codes "decline")
        then ground_quote reply decline (trim (string_of quote))
        else unclear_via by_model)

abbrev pub read_reply : Text → Answer → Verdict
read_reply reply answer =
    if says_decline (head_of reply)
    then record { decision = decline; quote = none; via = by_rule }
    else (if says_approve (head_of reply)
        then record { decision = approve; quote = none; via = by_rule }
        else read_answer reply answer)

unfoldable pub interpret_consent : Option Text → Answer → Verdict
interpret_consent text answer =
    if is_nothing (trim (string_of text))
    then unclear_via by_empty
    else read_reply (trim (string_of text)) answer
