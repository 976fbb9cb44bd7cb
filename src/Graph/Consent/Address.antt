-- ===== src/Graph/Consent/Address.antt =====
-- src/graph/consent.js: addressOf, the address of a subject that is a person keyed by one.
use yente.Prelude.{
  Text, ℕ, Bool, true, false, not, ◌&&◌, ◌||◌, Option, none, some, [], ◌∷◌, codes, map, length,
  if◌then◌else◌, ◌==◌,
}
use yente.Domain.Address.{lower, is_space}
use yente.Graph.Consent.{drop_text, is_nothing}
use yente.Store.Jobs.{starts_with}

-- `[^\s@]`
abbrev pub is_plain : ℕ → Bool
is_plain c = not (is_space c) && not (c == 64)

unfoldable pub all_plain : Text → Bool
all_plain [] = true
all_plain (c ∷ cs) = is_plain c && all_plain cs

-- A dot with something behind it.
unfoldable pub has_dot : Text → Bool
has_dot [] = false
has_dot (c ∷ cs) = (c == 46 && not (is_nothing cs)) || has_dot cs

-- What stands behind the `@`.
unfoldable pub is_domain : Text → Bool
is_domain [] = false
is_domain (c ∷ cs) = all_plain (c ∷ cs) && has_dot cs

-- `/^[^\s@]+@[^\s@]+\.[^\s@]+$/.test(text)`, behind some characters or none.
unfoldable pub is_address : Bool → Text → Bool
is_address behind [] = false
is_address behind (c ∷ cs) =
    let rest = is_address true cs in if c == 64 then behind && is_domain cs else is_plain c && rest

abbrev pub person : Text
person = codes "person:"

unfoldable pub address_of : Text → Option Text
address_of subject =
    if starts_with person subject && is_address false (drop_text (length person) subject)
    then some (map lower (drop_text (length person) subject))
    else none
