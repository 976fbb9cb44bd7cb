-- ===== src/Graph/Consent/Grounded.antt =====
-- The grounds of an approval and of a decline, and what the answer of the model comes to.
use yente.Prelude.{
  Text, ◌≡◌, refl, sym, subst, ◌⊎◌, inl, inr, Bool, true, false, Option, none, some, [], codes,
  same, same_iff, map, arith, Bool-cases,
}
use yente.Domain.Address.{lower, trim}
use yente.Graph.Consent.{
  Choice, Verdict, Answer, unclear, approve, decline, no_client, failed, unreadable, says, contains,
  normalize, head_of, ground_quote, read_answer, is_nothing, string_of,
}
use yente.Graph.Consent.Words.{IsPartOf, contains_iff, HasApproval, HasRefusal}

-- The words for the two choices that count.
abbrev pub word_for : Choice → Text
word_for unclear = []
word_for approve = codes "approve"
word_for decline = codes "decline"

-- The model answered with the word for the choice, in any case, and with words of the reply.
pub record IsQuoted (reply : Text) (answer : Answer) (c : Choice) (quote : Option Text)
    : Type 0 where
  pub decision : Option Text
  pub quoted : Option Text
  pub answered : answer ≡ says decision quoted
  pub word : map lower (string_of decision) ≡ word_for c
  pub on_file : quote ≡ some (trim (string_of quoted))
  pub not_empty : is_nothing (trim (string_of quoted)) ≡ false
  pub in_reply : IsPartOf (normalize (trim (string_of quoted))) (normalize reply)

-- No control word stands near the start of the reply, which is not empty, and the model speaks.
abbrev pub IsSpoken : Text → Answer → Choice → Option Text → Type 0
IsSpoken reply answer c quote =
    (is_nothing reply ≡ false)
    × (¬ HasRefusal (head_of reply))
    × (¬ HasApproval (head_of reply))
    × IsQuoted reply answer c quote

-- Why a reply is a decline, with the quote that is kept of it, and why it is an approval.
abbrev pub Declines : Text → Answer → Option Text → Type 0
Declines reply answer quote =
    (HasRefusal (head_of reply) × (quote ≡ none)) ⊎ IsSpoken reply answer decline quote

abbrev pub Approves : Text → Answer → Option Text → Type 0
Approves reply answer quote =
    ((¬ HasRefusal (head_of reply)) × HasApproval (head_of reply) × (quote ≡ none))
    ⊎ IsSpoken reply answer approve quote

-- A verdict for a choice, with a quote or none.
abbrev pub IsFor : Choice → Option Text → Verdict → Type 0
IsFor c quote v = (v.decision ≡ c) × (v.quote ≡ quote)

abbrev pub is_mute : Choice → Bool
is_mute unclear = true
is_mute _ = false

module _ (reply : Text) (c : Choice) (quote : Option Text) (loud : is_mute c ≡ false) where
  grounded :
      (b : Choice) (d q : Option Text)
      → map lower (string_of d) ≡ word_for b
      → IsFor c quote (ground_quote reply b (trim (string_of q)))
      → IsQuoted reply (says d q) c quote
  grounded b d q w h = record {
    decision = d;
    quoted = q;
    answered = refl;
    word = ground arith;
    on_file = ground arith;
    not_empty = ground arith;
    in_reply = (contains_iff (normalize (trim (string_of q))) (normalize reply)).0 (ground arith);
  }

  pub read_answer_sound :
      (a : Answer) → IsFor c quote (read_answer reply a) → IsQuoted reply a c quote
  read_answer_sound no_client h = absurd (ground arith)
  read_answer_sound failed h = absurd (ground arith)
  read_answer_sound unreadable h = absurd (ground arith)
  read_answer_sound (says d q) h =
      elim (Bool-cases (same (map lower (string_of d)) (codes "approve"))) [
        | inl y ↦ grounded approve d q ((same_iff _ _).0 y) (ground arith)
        | inr n ↦ elim (Bool-cases (same (map lower (string_of d)) (codes "decline"))) [
          | inl y ↦ grounded decline d q ((same_iff _ _).0 y) (ground arith)
          | inr m ↦ absurd (ground arith)
        ]
      ]

  quoted_says :
      (d q : Option Text)
      → map lower (string_of d) ≡ word_for c
      → quote ≡ some (trim (string_of q))
      → is_nothing (trim (string_of q)) ≡ false
      → contains (normalize (trim (string_of q))) (normalize reply) ≡ true
      → IsFor c quote (read_answer reply (says d q))
  unfolding same
  quoted_says d q w f n i = ground (
    arith,
    same_iff (map lower (string_of d)) (codes "approve"),
    same_iff (map lower (string_of d)) (codes "decline"),
  )

  pub quoted_answer : (a : Answer) → IsQuoted reply a c quote → IsFor c quote (read_answer reply a)
  quoted_answer a k =
      subst (λ x. IsFor c quote (read_answer reply x)) (sym k.answered)
        (quoted_says k.decision k.quoted k.word k.on_file k.not_empty
          ((contains_iff (normalize (trim (string_of k.quoted))) (normalize reply)).1 k.in_reply))
