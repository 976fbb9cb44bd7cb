-- ===== src/Graph/Consent/Readings.antt =====
-- When a reply is read as an approval, and when as a decline.
use yente.Prelude.{
  Text, ◌≡◌, refl, inl, inr, ◌↔◌, Bool, true, false, Option, none, [], ◌∷◌, arith, Bool-cases,
}
use yente.Domain.Address.{trim}
use yente.Graph.Consent.{
  Choice, Verdict, Answer, approve, decline, says_approve, says_decline, head_of, is_nothing,
  interpret_consent, string_of, has_word, take_text,
}
use yente.Graph.Consent.Words.{says_approve_iff, says_decline_iff}
use yente.Graph.Consent.Grounded.{
  IsQuoted, IsSpoken, Declines, Approves, IsFor, is_mute, read_answer_sound, quoted_answer,
}

refuted {ℓ} : {P : Type ℓ} (b : Bool) → b ≡ false → (b ≡ true) ↔ P → ¬ P
refuted b f (there, back) = λ p. cc (back p)

not_so {ℓ} : {P : Type ℓ} (b : Bool) → (b ≡ true) ↔ P → (¬ P) → b ≡ false
not_so true (there, back) n = absurd (n (there refl))
not_so false (there, back) n = refl

blank_says_nothing :
    (reply : Text)
    → is_nothing reply ≡ true
    → (says_decline (head_of reply) ≡ false) × (says_approve (head_of reply) ≡ false)
unfolding says_decline says_approve has_word take_text
blank_says_nothing [] n = (refl, refl)
blank_says_nothing (c ∷ cs) n = absurd (ground arith)

-- What is read of a reply, as far as the rules go.
module _ (text : Option Text) (a : Answer) (quote : Option Text) where
  abbrev reply : Text
  reply = trim (string_of text)

  abbrev verdict : Verdict
  verdict = interpret_consent text a

  spoken_iff :
      (c : Choice)
      → is_mute c ≡ false
      → is_nothing reply ≡ false
      → says_decline (head_of reply) ≡ false
      → says_approve (head_of reply) ≡ false
      → IsFor c quote verdict ↔ IsQuoted reply a c quote
  unfolding interpret_consent
  spoken_iff c loud n d p = (
    (λ (e, f). read_answer_sound reply c quote loud a (ground arith, ground arith)),
    (λ k. let (e, f) = quoted_answer reply c quote loud a k in (ground arith, ground arith)),
  )

  verdict-IsSpoken :
      (c : Choice)
      → is_mute c ≡ false
      → is_nothing reply ≡ false
      → says_decline (head_of reply) ≡ false
      → says_approve (head_of reply) ≡ false
      → IsFor c quote verdict
      → IsSpoken reply a c quote
  verdict-IsSpoken c loud n d p h = (
    n,
    refuted _ d (says_decline_iff (head_of reply)),
    refuted _ p (says_approve_iff (head_of reply)),
    (spoken_iff c loud n d p).0 h,
  )

  if_spoken : (c : Choice) → is_mute c ≡ false → IsSpoken reply a c quote → IsFor c quote verdict
  if_spoken c loud (n, d, p, k) =
      (spoken_iff c loud n (not_so _ (says_decline_iff (head_of reply)) d)
          (not_so _ (says_approve_iff (head_of reply)) p)).1
        k

  -- By the rules alone.
  refusing : says_decline (head_of reply) ≡ true → quote ≡ none → IsFor decline quote verdict
  unfolding interpret_consent
  refusing d q = ground (arith, blank_says_nothing reply)

  approving :
      says_decline (head_of reply) ≡ false
      → says_approve (head_of reply) ≡ true
      → quote ≡ none
      → IsFor approve quote verdict
  unfolding interpret_consent
  approving d p q = ground (arith, blank_says_nothing reply)

  decline_sound : IsFor decline quote verdict → Declines reply a quote
  unfolding interpret_consent
  decline_sound h = elim (Bool-cases (is_nothing reply)) [
    | inl n ↦ absurd (ground arith)
    | inr n ↦ elim (Bool-cases (says_decline (head_of reply))) [
      | inl d ↦ inl ((says_decline_iff (head_of reply)).0 d, ground arith)
      | inr d ↦ elim (Bool-cases (says_approve (head_of reply))) [
        | inl p ↦ absurd (ground arith)
        | inr p ↦ inr (verdict-IsSpoken decline refl n d p h)
      ]
    ]
  ]

  approve_sound : IsFor approve quote verdict → Approves reply a quote
  unfolding interpret_consent
  approve_sound h = elim (Bool-cases (is_nothing reply)) [
    | inl n ↦ absurd (ground arith)
    | inr n ↦ elim (Bool-cases (says_decline (head_of reply))) [
      | inl d ↦ absurd (ground arith)
      | inr d ↦ elim (Bool-cases (says_approve (head_of reply))) [
        | inl p ↦ inl (
          refuted _ d (says_decline_iff (head_of reply)),
          (says_approve_iff (head_of reply)).0 p,
          ground arith,
        )
        | inr p ↦ inr (verdict-IsSpoken approve refl n d p h)
      ]
    ]
  ]

  decline_complete : Declines reply a quote → IsFor decline quote verdict
  decline_complete (inl (d, q)) = refusing ((says_decline_iff (head_of reply)).1 d) q
  decline_complete (inr k) = if_spoken decline refl k

  approve_complete : Approves reply a quote → IsFor approve quote verdict
  approve_complete (inl (d, p, q)) =
      approving (not_so _ (says_decline_iff (head_of reply)) d)
        ((says_approve_iff (head_of reply)).1 p) q
  approve_complete (inr k) = if_spoken approve refl k

  -- A reply is read as a decline exactly when a word that declines stands by itself near its start; or
  -- no control word does, and the model answers that the reply declines, with words that the reply
  -- contains, which are kept. It is read as an approval exactly when a word that approves, and none that
  -- declines, stands by itself near its start; or no control word does, and the model answers that it
  -- approves, with words of the reply.
  pub interpret_consent_iff :
      (IsFor decline quote (interpret_consent text a) ↔ Declines (trim (string_of text)) a quote)
      × (IsFor approve quote (interpret_consent text a) ↔ Approves (trim (string_of text)) a quote)
  interpret_consent_iff = ((decline_sound, decline_complete), (approve_sound, approve_complete))

-- A reply with a decline word near its start is a decline, whatever the model answers.
pub decline_wins :
    (text : Option Text) (a : Answer)
    → says_decline (head_of (trim (string_of text))) ≡ true
    → (interpret_consent text a).decision ≡ decline
decline_wins text a d = (refusing text a none d refl).0
