-- ===== src/Extract/Spans/Longest.antt =====
-- The search for the end of the agreement ends, and finds the longest beginning that occurs.
use yente.Prelude.{
  Text, ℕ, zero, suc, ◌+◌, ◌-◌, ◌≤◌, ◌<◌, ◌≡◌, refl, true, false, some, [], ◌∷◌, ltb, length, arith,
  Bool-cases, inl, inr,
}
use yente.Graph.Consent.{contains, take_text}
use yente.Store.Jobs.{starts_with}
use yente.Extract.Spans.{narrow, middle}

pub starts_with-take_text :
    (k n : ℕ) (part text : Text)
    → k ≤ n
    → starts_with (take_text n part) text ≡ true
    → starts_with (take_text k part) text ≡ true
unfolding starts_with take_text
starts_with-take_text zero n part text le h = refl
starts_with-take_text (suc k) zero part text le h = absurd (omega arith)
starts_with-take_text (suc k) (suc n) [] text le h = refl
starts_with-take_text (suc k) (suc n) (p ∷ part) [] le h = h
starts_with-take_text (suc k) (suc n) (p ∷ part) (c ∷ text) le h =
    ground (arith, starts_with-take_text k n part text)

pub contains-take_text :
    (k n : ℕ) (part text : Text)
    → k ≤ n
    → contains (take_text n part) text ≡ true
    → contains (take_text k part) text ≡ true
unfolding contains
contains-take_text k n part [] le h = starts_with-take_text k n part [] le h
contains-take_text k n part (c ∷ text) le h =
    ground
      (arith, starts_with-take_text k n part (c ∷ text) le, contains-take_text k n part text le)

-- The beginning of that length occurs, and no longer one does.
pub record IsLongest (haystack needle : Text) (m : ℕ) : Type 0 where
  pub at_most : m ≤ length needle
  pub agrees : contains (take_text m needle) haystack ≡ true
  pub no_longer :
      (k : ℕ) → m < k → k ≤ length needle → contains (take_text k needle) haystack ≡ false

-- What every round keeps of its bounds.
pub record Bounds (haystack needle : Text) (lo hi : ℕ) : Type 0 where
  pub below : lo ≤ hi
  pub at_most : hi ≤ length needle
  pub agrees : contains (take_text lo needle) haystack ≡ true
  pub no_longer :
      (k : ℕ) → hi < k → k ≤ length needle → contains (take_text k needle) haystack ≡ false

module _ (haystack needle : Text) where
  met :
      (lo hi : ℕ) → Bounds haystack needle lo hi → ltb lo hi ≡ false → IsLongest haystack needle lo
  met lo hi b e = record {
    at_most = ground (arith, b.below, b.at_most);
    agrees = b.agrees;
    no_longer = λ k lt le. b.no_longer k (ground (arith, b.below)) le;
  }

  raised :
      (lo hi : ℕ)
      → Bounds haystack needle lo hi
      → lo < hi
      → contains (take_text (middle lo hi) needle) haystack ≡ true
      → Bounds haystack needle (middle lo hi) hi
  raised lo hi b lt e = record {
    below = omega arith;
    at_most = b.at_most;
    agrees = e;
    no_longer = b.no_longer;
  }

  absent_above :
      (m k : ℕ)
      → contains (take_text m needle) haystack ≡ false
      → m ≤ k
      → contains (take_text k needle) haystack ≡ false
  absent_above m k e le = elim (Bool-cases (contains (take_text k needle) haystack)) [
    | inl c ↦ absurd (ground (arith, contains-take_text m k needle haystack le c))
    | inr c ↦ c
  ]

  lowered :
      (lo hi : ℕ)
      → Bounds haystack needle lo hi
      → lo < hi
      → contains (take_text (middle lo hi) needle) haystack ≡ false
      → Bounds haystack needle lo (middle lo hi - 1)
  lowered lo hi b lt e = record {
    below = omega arith;
    at_most = omega (arith, b.at_most);
    agrees = b.agrees;
    no_longer = λ k more le. absent_above (middle lo hi) k e (omega arith);
  }

  pub narrow-IsLongest :
      (rounds lo hi : ℕ)
      → Bounds haystack needle lo hi
      → hi ≤ lo + rounds
      → (m : ℕ) × (narrow rounds haystack needle lo hi ≡ some m) × IsLongest haystack needle m
  unfolding narrow
  narrow-IsLongest zero lo hi b enough = (lo, ground arith, met lo hi b (ground arith))
  narrow-IsLongest (suc rounds) lo hi b enough = elim (Bool-cases (ltb lo hi)) [
    | inr e ↦ (lo, ground arith, met lo hi b e)
    | inl e ↦ elim (Bool-cases (contains (take_text (middle lo hi) needle) haystack)) [
      | inl c ↦
          let (m, found, longest) =
            narrow-IsLongest rounds (middle lo hi) hi (raised lo hi b (ground arith) c)
              (ground arith) in
          (m, ground arith, longest)
      | inr c ↦
          let (m, found, longest) =
            narrow-IsLongest rounds lo (middle lo hi - 1) (lowered lo hi b (ground arith) c)
              (ground arith) in
          (m, ground arith, longest)
    ]
  ]
