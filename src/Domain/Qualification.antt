-- ===== src/Domain/Qualification.antt =====
-- src/domain/qualification.js: whether a profile answers what a policy asks. A profile is a tree of
-- values. `undefined` and `null` are one value, a number or a Boolean stands as its text, and an array
-- holds texts; a key that is no field of an object reads as absent.
pub mod Qualified
use yente.Prelude.{
  Text, ℕ, Bool, true, false, not, ◌&&◌, ◌||◌, Option, none, some, List, [], ◌∷◌, ◌++◌, codes,
  if◌then◌else◌, map, ◌==◌, same, includes,
}
use yente.Domain.Address.{lower, trim}

mutual
  pub data Value : Type 0 where
    absent : Value
    text : Text → Value
    array : List Text → Value
    object : Fields → Value

  pub data Fields : Type 0 where
    no_field : Fields
    field : Text → Value → Fields → Fields

-- `path.split(".")`
abbrev push_key : ℕ → List Text → List Text
push_key c [] = (c ∷ []) ∷ []
push_key c (k ∷ ks) = (c ∷ k) ∷ ks

unfoldable pub split_path : Text → List Text
split_path [] = [] ∷ []
split_path (c ∷ cs) = let rest = split_path cs in if c == 46 then [] ∷ rest else push_key c rest

unfoldable pub get_field : Text → Fields → Value
get_field key no_field = absent
get_field key (field k v rest) = let other = get_field key rest in if same k key then v else other

-- `value?.[key]`
abbrev pub get_key : Value → Text → Value
get_key (object fields) key = get_field key fields
get_key _ key = absent

unfoldable pub read_keys : Value → List Text → Value
read_keys value [] = value
read_keys value (key ∷ keys) = read_keys (get_key value key) keys

unfoldable pub read_path : Value → Text → Value
read_path value path = read_keys value (split_path path)

abbrev is_text_present : Text → Bool
is_text_present [] = false
is_text_present (c ∷ cs) = true

abbrev pub is_filled : List Text → Bool
is_filled [] = false
is_filled (x ∷ xs) = true

unfoldable pub is_present : Value → Bool
is_present absent = false
is_present (text t) = is_text_present (trim t)
is_present (array l) = is_filled l
is_present (object fields) = true

-- `!value`
abbrev pub is_truthy : Value → Bool
is_truthy absent = false
is_truthy (text []) = false
is_truthy _ = true

pub record Policy : Type 0 where
  pub id : Text
  pub version : Text
  pub allowed_states : Option (List Text)
  pub required_fields : List Text

pub data Blocker : Type 0 where
  missing_profile_id no_inbound_relationship member_state_not_allowed : Blocker
  member_in : Text → Blocker

-- TERMINAL_MEMBER_STATES
abbrev pub terminal_member_states : List Text
terminal_member_states = codes "STOPPED" ∷ codes "DELETED" ∷ []

abbrev pub is_terminal_state : Value → Bool
is_terminal_state (text s) = includes s terminal_member_states
is_terminal_state _ = false

abbrev pub state_name : Value → Text
state_name (text s) = map lower s
state_name _ = []

-- `allowedStates.includes(state)`
abbrev is_listed : Value → List Text → Bool
is_listed (text s) l = includes s l
is_listed _ l = false

abbrev pub is_allowed : Option (List Text) → Value → Bool
is_allowed none state = true
is_allowed (some l) state = is_listed state l

abbrev block_if : Bool → Blocker → List Blocker
block_if true b = b ∷ []
block_if false b = []

abbrev state_blockers : Policy → Value → List Blocker
state_blockers policy state =
    if is_terminal_state state
    then member_in (state_name state) ∷ []
    else block_if (not (is_allowed policy.allowed_states state)) member_state_not_allowed

unfoldable pub blockers : Value → Policy → List Blocker
blockers profile policy =
    block_if (not (is_truthy (get_key profile (codes "id")))) missing_profile_id
    ++ (block_if (not (is_truthy (get_key profile (codes "inboundEstablishedAt"))))
          no_inbound_relationship
        ++ state_blockers policy (get_key profile (codes "state")))

abbrev is_evidence : Value → Bool
is_evidence (array l) = is_filled l
is_evidence _ = false

-- `profile.evidenceByField?.[path]` is an array that is not empty.
unfoldable pub is_evidenced : Value → Text → Bool
is_evidenced profile path = is_evidence (get_key (get_key profile (codes "evidenceByField")) path)

-- The two lists that the loop over the required fields fills.
unfoldable pub missing_fields : Value → List Text → List Text
missing_fields profile [] = []
missing_fields profile (path ∷ paths) =
    let rest = missing_fields profile paths in
    if is_present (read_path profile path) then rest else path ∷ rest

unfoldable pub unevidenced_fields : Value → List Text → List Text
unevidenced_fields profile [] = []
unevidenced_fields profile (path ∷ paths) =
    let rest = unevidenced_fields profile paths in
    if not (is_present (read_path profile path)) || is_evidenced profile path
    then rest
    else path ∷ rest

pub record Qualification : Type 0 where
  pub policy_id : Text
  pub policy_version : Text
  pub qualified : Bool
  pub blockers : List Blocker
  pub missing : List Text
  pub unevidenced : List Text

abbrev pub is_empty_list {ℓ} : {A : Type ℓ} → List A → Bool
is_empty_list [] = true
is_empty_list (x ∷ xs) = false

unfoldable pub evaluate_qualification : Value → Policy → Qualification
evaluate_qualification profile policy = record {
  policy_id = policy.id;
  policy_version = policy.version;
  qualified =
      is_empty_list (blockers profile policy)
      && (is_empty_list (missing_fields profile policy.required_fields)
          && is_empty_list (unevidenced_fields profile policy.required_fields));
  blockers = blockers profile policy;
  missing = missing_fields profile policy.required_fields;
  unevidenced = unevidenced_fields profile policy.required_fields;
}

abbrev first_two : List Text → List Text
first_two [] = []
first_two (a ∷ []) = a ∷ []
first_two (a ∷ b ∷ rest) = a ∷ b ∷ []

unfoldable pub missing_interview_fields : Qualification → List Text
missing_interview_fields q = first_two (q.missing ++ q.unevidenced)
