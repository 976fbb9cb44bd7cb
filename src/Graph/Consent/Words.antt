-- ===== src/Graph/Consent/Words.antt =====
-- What it means that a text contains another, and that it has a control word.
use yente.Prelude.{
  Text, ℕ, ◌≡◌, refl, ap, ◌∙◌, ◌↔◌, ◌⊎◌, inl, inr, Bool, true, false, [], ◌∷◌, ◌++◌, codes, length,
  ◌||◌, arith, Bool-cases,
}
use yente.Graph.Consent.{
  contains, has_word, drop_text, is_word, at_word, says_approve, says_decline,
}
use yente.Store.Jobs.{starts_with}

starts_with-split :
    (part text : Text) → starts_with part text ≡ true → text ≡ part ++ drop_text (length part) text
unfolding starts_with drop_text
starts_with-split [] text h = refl
starts_with-split (p ∷ part) [] h = absurd (ground arith)
starts_with-split (p ∷ part) (c ∷ text) h = ground (arith, starts_with-split part text)

starts_with-append : (part rest : Text) → starts_with part (part ++ rest) ≡ true
unfolding starts_with
starts_with-append [] rest = refl
starts_with-append (p ∷ part) rest = ground (arith, starts_with-append part rest)

drop_text-append : (part rest : Text) → drop_text (length part) (part ++ rest) ≡ rest
unfolding drop_text
drop_text-append [] rest = refl
drop_text-append (p ∷ part) rest = drop_text-append part rest

-- The part stands somewhere in the text.
pub record IsPartOf (part text : Text) : Type 0 where
  pub before : Text
  pub after : Text
  pub split : text ≡ before ++ (part ++ after)

contains_sound : (part text : Text) → contains part text ≡ true → IsPartOf part text
unfolding contains
contains_sound part [] h = record { before = []; after = _; split = starts_with-split part [] h }
contains_sound part (c ∷ cs) h = elim (Bool-cases (starts_with part (c ∷ cs))) [
  | inl s ↦ record { before = []; after = _; split = starts_with-split part (c ∷ cs) s }
  | inr f ↦
      let rest = contains_sound part cs (ground arith) in
      record { before = c ∷ rest.before; after = rest.after; split = ap (λ t. c ∷ t) rest.split }
]

contains_at_start : (part text : Text) → starts_with part text ≡ true → contains part text ≡ true
unfolding contains
contains_at_start part [] h = h
contains_at_start part (c ∷ cs) h = ground arith

contains-split : (part before after : Text) → contains part (before ++ (part ++ after)) ≡ true
unfolding contains
contains-split part [] after =
    contains_at_start part (part ++ after) (starts_with-append part after)
contains-split part (c ∷ before) after = ground (arith, contains-split part before after)

pub contains_iff : (part text : Text) → (contains part text ≡ true) ↔ IsPartOf part text
contains_iff part text = (
  contains_sound part text,
  (λ o. ap (contains part) o.split ∙ contains-split part o.before o.after),
)

-- Whether a text ends in a word character; an empty one stands behind such a character or not.
abbrev pub ends_in_word : Bool → Text → Bool
ends_in_word behind [] = behind
ends_in_word behind (c ∷ cs) = ends_in_word (is_word c) cs

-- The word stands somewhere in the text, with no word character on either side.
pub record IsWordOf (behind : Bool) (word text : Text) : Type 0 where
  pub before : Text
  pub after : Text
  pub split : text ≡ before ++ (word ++ after)
  pub free_before : ends_in_word behind before ≡ false
  pub free_after : at_word after ≡ false

has_word_sound :
    (word : Text) (behind : Bool) (text : Text)
    → has_word word behind text ≡ true
    → IsWordOf behind word text
unfolding has_word
has_word_sound word behind [] h = absurd (ground arith)
has_word_sound word behind (c ∷ cs) h = elim (Bool-cases (has_word word (is_word c) cs)) [
  | inl s ↦
      let rest = has_word_sound word (is_word c) cs s in
      record {
        before = c ∷ rest.before;
        after = rest.after;
        split = ap (λ t. c ∷ t) rest.split;
        free_before = rest.free_before;
        free_after = rest.free_after;
      }
  | inr f ↦ record {
    before = [];
    after = drop_text (length word) (c ∷ cs);
    split = starts_with-split word (c ∷ cs) (ground arith);
    free_before = ground arith;
    free_after = ground arith;
  }
]

has_word-split :
    (w : ℕ) (ws : Text) (behind : Bool) (before after : Text)
    → ends_in_word behind before ≡ false
    → at_word after ≡ false
    → has_word (w ∷ ws) behind (before ++ ((w ∷ ws) ++ after)) ≡ true
unfolding has_word
has_word-split w ws behind [] after b a =
    ground (arith, starts_with-append (w ∷ ws) after, ap at_word (drop_text-append (w ∷ ws) after))
has_word-split w ws behind (c ∷ before) after b a =
    ground (arith, has_word-split w ws (is_word c) before after b a)

pub has_word_iff :
    (w : ℕ) (ws text : Text) → (has_word (w ∷ ws) false text ≡ true) ↔ IsWordOf false (w ∷ ws) text
has_word_iff w ws text = (
  has_word_sound (w ∷ ws) false text,
  (λ o.
      ap (has_word (w ∷ ws) false) o.split
      ∙ has_word-split w ws false o.before o.after o.free_before o.free_after),
)

-- One of the words that approve, or that decline.
abbrev pub HasApproval : Text → Type 0
HasApproval head = IsWordOf false (codes "INTRODUCE") head ⊎ IsWordOf false (codes "YES") head

abbrev pub HasRefusal : Text → Type 0
HasRefusal head =
    IsWordOf false (codes "PASS") head
    ⊎ (IsWordOf false (codes "STOP") head ⊎ IsWordOf false (codes "UNSUBSCRIBE") head)

or_iff {ℓ κ} :
    {P : Type ℓ} {Q : Type κ} (a b : Bool)
    → (a ≡ true) ↔ P
    → (b ≡ true) ↔ Q
    → ((a || b) ≡ true) ↔ (P ⊎ Q)
or_iff true b (f, g) (h, k) = ((λ e. inl (f refl)), (λ o. refl))
or_iff false b (f, g) (h, k) = ((λ e. inr (h e)), (λ o. elim o [ inl p ↦ cc (g p) | inr q ↦ k q ]))

pub says_approve_iff : (head : Text) → (says_approve head ≡ true) ↔ HasApproval head
unfolding says_approve
says_approve_iff head = or_iff _ _ (has_word_iff _ _ head) (has_word_iff _ _ head)

pub says_decline_iff : (head : Text) → (says_decline head ≡ true) ↔ HasRefusal head
unfolding says_decline
says_decline_iff head =
    or_iff _ _ (has_word_iff _ _ head) (or_iff _ _ (has_word_iff _ _ head) (has_word_iff _ _ head))
