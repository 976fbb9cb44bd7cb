-- ===== src/Store/Keys.antt =====
-- src/store/keys.js: the ids of the rows, which are their uniqueness keys. The hash is an argument; the
-- content of a source is given as text.
pub mod Pairs
mod Tests
use yente.Prelude.{
  Text, ℕ, zero, suc, ◌+◌, Bool, true, false, not, ◌&&◌, ◌||◌, Option, none, some, List, [], ◌∷◌,
  ◌++◌, codes, leb, ltb, same, length, if◌then◌else◌, ◌==◌, Result, ok, err, ◌>>=◌, ◌>>◌, throw_if,
}
use yente.Domain.Address.{trim, normalize_address}
use yente.Domain.Matching.{text_leb}

pub data Error : Type 0 where
  missing_message_id not_an_address not_two_members same_member missing_policy_version
        missing_cycle :
      Error
  missing_idempotency_key : Error

abbrev is_safe : ℕ → Bool
is_safe c =
    (leb 65 c && leb c 90)
    || ((leb 97 c && leb c 122)
        || ((leb 48 c && leb c 57) || (c == 46 || (c == 95 || (c == 64 || (c == 43 || c == 45))))))

unfoldable pub all_safe : Text → Bool
all_safe [] = true
all_safe (c ∷ cs) = is_safe c && all_safe cs

-- `/^[A-Za-z0-9._@+-]{1,120}$/`
abbrev pub is_plain : Text → Bool
is_plain s = leb 1 (length s) && (leb (length s) 120 && all_safe s)

abbrev pub drop_open : Text → Text
drop_open [] = []
drop_open (c ∷ cs) = if c == 60 then cs else c ∷ cs

unfoldable pub drop_close : Text → Text
drop_close [] = []
drop_close (c ∷ []) = if c == 62 then [] else c ∷ []
drop_close (c ∷ d ∷ cs) = c ∷ drop_close (d ∷ cs)

abbrev pub or_error : Error → Option Text → Result Error Text
or_error e none = err e
or_error e (some t) = ok t

-- `[a, b].sort()`
abbrev pub lower_of : Text → Text → Text
lower_of a b = if text_leb a b then a else b

abbrev pub upper_of : Text → Text → Text
upper_of a b = if text_leb a b then b else a

-- What a match is known by.
pub record Parts : Type 0 where
  pub policy_id : Text
  pub policy_version : Option Text
  pub member_ids : List Text
  pub cycle : Option Text

module _ (digest : Text → Text) where
  unfoldable pub segment : Text → Text
  segment value = let s = trim value in if is_plain s then s else digest s

  unfoldable pub message_key : Text → Result Error Text
  message_key rfc_message_id =
      let raw = drop_close (drop_open (trim rfc_message_id)) in
      if length raw == 0 then err missing_message_id else ok (segment raw)

  unfoldable pub member_key : Text → Result Error Text
  member_key address = do
    normal ← or_error not_an_address (normalize_address address)
    ok (segment normal)

  unfoldable pub source_key : Text → Text → Text
  source_key member_id content = segment member_id ++ 58 ∷ digest content

  -- The two ids, as segments, and the parts that must be there.
  abbrev pub joined : Text → Text → Text → Text → Text → Text
  joined policy version a b cycle =
      segment policy ++ codes ":v" ++ version ++ 58 ∷ a ++ 126 ∷ b ++ codes ":c" ++ cycle

  abbrev pub pair_key : Parts → Text → Text → Result Error Text
  pair_key p a b = do
    throw_if (same a b) same_member
    version ← or_error missing_policy_version p.policy_version
    cycle ← or_error missing_cycle p.cycle
    ok (joined p.policy_id version (lower_of a b) (upper_of a b) cycle)

  abbrev of_two : Parts → List Text → Result Error Text
  of_two p (a ∷ b ∷ []) = pair_key p (segment a) (segment b)
  of_two p _ = err not_two_members

  unfoldable pub match_key : Parts → Result Error Text
  match_key p = of_two p p.member_ids

  unfoldable pub preview_key : Text → Text → Text
  preview_key match_id recipient = segment match_id ++ 58 ∷ segment recipient

  unfoldable pub introduction_key : Text → Text
  introduction_key match_id = segment match_id

  unfoldable pub outbox_key : Text → Result Error Text
  outbox_key idempotency_key =
      let raw = trim idempotency_key in
      if length raw == 0 then err missing_idempotency_key else ok (segment raw)

  unfoldable pub invitation_key : Text → Result Error Text
  invitation_key address = do
    normal ← or_error not_an_address (normalize_address address)
    ok (codes "enrollment_invitation:" ++ normal)

  -- outboxKeyFor
  unfoldable pub private_match_preview : Text → Text → Result Error Text
  private_match_preview match_id recipient =
      outbox_key (codes "private_match_preview:" ++ preview_key match_id recipient)

  unfoldable pub joint_introduction : Text → Result Error Text
  joint_introduction match_id =
      outbox_key (codes "joint_introduction:" ++ introduction_key match_id)

  unfoldable pub enrollment_invitation : Text → Result Error Text
  enrollment_invitation address = invitation_key address >>= λ key. outbox_key key
