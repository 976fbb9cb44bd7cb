-- ===== src/Extract/Spans/Qualifying.antt =====
-- Where each fact of a list of proposals goes: it counts, it waits for a confirmation, or it is refused.
use yente.Prelude.{
  Text, ℕ, ◌≡◌, refl, sym, subst, Bool, true, false, List, [], ◌∷◌, Result, ok, err, if◌then◌else◌,
}
use yente.Extract.Spans.{
  min_evidence_chars, Fact, Verified, Error, verify_fact, Checked, verify_facts, sort_in,
  qualifying_facts, facts_needing_confirmation,
}
use yente.Extract.Spans.Answered.{IsAnswered, IsAnswered-explicit, verify_fact-IsAnswered}

module _ (nfkc : Text → Text) (is_letter is_number : ℕ → Bool) (sources : List (Text × Text)) where
  -- The answer on a fact, and what stands behind it.
  pub record IsAnswer (f : Fact) (r : Result Error Verified) : Type 0 where
    pub given : verify_fact nfkc is_letter is_number min_evidence_chars f sources ≡ r
    pub grounds : IsAnswered nfkc is_letter is_number min_evidence_chars f sources r

  -- The facts that were proposed, those that count, those that wait and those that are refused, each
  -- list in the order of the proposals.
  pub data HasPlaces
      : List Fact → List Verified → List Verified → List (Fact × Error) → Type 0 where
    no_more : HasPlaces [] [] [] []
    counts :
        {f : Fact} {v : Verified} {fs : List Fact} {vs ws : List Verified}
        {es : List (Fact × Error)}
        → f.explicit ≡ true
        → IsAnswer f (ok v)
        → HasPlaces fs vs ws es
        → HasPlaces (f ∷ fs) (v ∷ vs) ws es
    waits :
        {f : Fact} {v : Verified} {fs : List Fact} {vs ws : List Verified}
        {es : List (Fact × Error)}
        → f.explicit ≡ false
        → IsAnswer f (ok v)
        → HasPlaces fs vs ws es
        → HasPlaces (f ∷ fs) vs (v ∷ ws) es
    refused :
        {f : Fact} {e : Error} {fs : List Fact} {vs ws : List Verified} {es : List (Fact × Error)}
        → IsAnswer f (err e)
        → HasPlaces fs vs ws es
        → HasPlaces (f ∷ fs) vs ws ((f, e) ∷ es)

  answer :
      (f : Fact) (r : Result Error Verified)
      → verify_fact nfkc is_letter is_number min_evidence_chars f sources ≡ r
      → IsAnswer f r
  answer f r e = record {
    given = e;
    grounds =
        subst (IsAnswered nfkc is_letter is_number min_evidence_chars f sources) e
          (verify_fact-IsAnswered nfkc is_letter is_number min_evidence_chars f sources);
  }

  same_explicit : (f : Fact) (v : Verified) → IsAnswer f (ok v) → v.explicit ≡ f.explicit
  same_explicit f v a =
      IsAnswered-explicit nfkc is_letter is_number min_evidence_chars f sources v a.grounds

  accepted :
      (f : Fact) (v : Verified) (fs : List Fact) (vs ws : List Verified) (es : List (Fact × Error))
      (b : Bool)
      → f.explicit ≡ b
      → IsAnswer f (ok v)
      → HasPlaces fs vs ws es
      → HasPlaces (f ∷ fs) (if b then v ∷ vs else vs) (if b then ws else v ∷ ws) es
  accepted f v fs vs ws es true x a h = counts x a h
  accepted f v fs vs ws es false x a h = waits x a h

  abbrev Placed : List Fact → Checked nfkc is_letter is_number → Type 0
  Placed fs c =
      HasPlaces fs (qualifying_facts c.verified) (facts_needing_confirmation c.verified) c.rejected

  sorted :
      (f : Fact) (r : Result Error Verified) (fs : List Fact)
      (rest : Checked nfkc is_letter is_number)
      → IsAnswer f r
      → Placed fs rest
      → Placed (f ∷ fs) (sort_in nfkc is_letter is_number f r rest)
  unfolding qualifying_facts facts_needing_confirmation
  sorted f (ok v) fs rest a h =
      accepted f v fs _ _ rest.rejected v.explicit (sym (same_explicit f v a)) a h
  sorted f (err e) fs rest a h = refused a h

  -- Every fact that was proposed goes to one place, in the order of the proposals: an explicit fact
  -- whose quote stands in the source that it cites counts, as it was verified; one that is not explicit
  -- waits for a confirmation; and one that was refused is listed itself, with the reason.
  pub verify_facts-HasPlaces :
      (fs : List Fact)
      → HasPlaces fs
          (qualifying_facts (verify_facts nfkc is_letter is_number fs sources).verified)
          (facts_needing_confirmation (verify_facts nfkc is_letter is_number fs sources).verified)
          (verify_facts nfkc is_letter is_number fs sources).rejected
  unfolding verify_facts qualifying_facts facts_needing_confirmation
  verify_facts-HasPlaces [] = no_more
  verify_facts-HasPlaces (f ∷ fs) =
      sorted f (verify_fact nfkc is_letter is_number min_evidence_chars f sources) fs
        (verify_facts nfkc is_letter is_number fs sources) (answer f _ refl)
        (verify_facts-HasPlaces fs)
