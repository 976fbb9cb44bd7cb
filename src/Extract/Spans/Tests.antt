-- ===== src/Extract/Spans/Tests.antt =====
-- A résumé and the quotes from it.
use yente.Prelude.{
  Text, ℕ, ◌≡◌, refl, Bool, true, ◌&&◌, ◌||◌, Option, none, some, List, [], ◌∷◌, codes, leb, Result,
  ok, err, lookup, same,
}
use yente.Extract.Spans.{
  required, locate, join_hyphens, skip_spaces, index_of, word_hit, is_word_at, min_evidence_chars,
  fork, divergence_of, Fact, Verified, Error, evidence_too_short, verify_fact, verify_facts,
  qualifying_facts, facts_needing_confirmation, normalise_for_grounding,
}
use yente.Domain.Address.{trim, trim_start, trim_end, is_space, lower}
use yente.Graph.Consent.{collapse, drop_text}
use yente.Store.Jobs.{starts_with}
use yente.Extract.Spans.Longest.{IsLongest}
use yente.Extract.Spans.Grounded.{agreed, divergence_of-IsLongest}
use yente.Extract.Spans.Answered.{IsAnswered, verify_fact-IsAnswered}
use yente.Extract.Spans.Qualifying.{HasPlaces, verify_facts-HasPlaces}

abbrev ascii : Text → Text
ascii t = t

abbrev is_letter : ℕ → Bool
is_letter c = (leb 65 c && leb c 90) || (leb 97 c && leb c 122)

abbrev is_number : ℕ → Bool
is_number c = leb 48 c && leb c 57

abbrev resume : Text
resume = codes "Led the engineer- ing of a trust network since 2019. Rust, Go."

abbrev sources : List (Text × Text)
sources = (codes "cv", resume) ∷ []

abbrev quoted : Text → Text → Fact
quoted value evidence = record {
  field = some (codes "skill");
  value = some value;
  source_id = some (codes "cv");
  evidence = some evidence;
  explicit = true;
  confidence = none;
}

abbrev wrapped : Fact
wrapped = quoted (codes "engineer") (codes "led the  engineering of")

-- A hyphen at the end of a line goes, one behind a digit stays.
hyphens_joined :
    normalise_for_grounding ascii is_letter is_number (codes "Engineer- ing 2019-now")
    ≡ codes "engineering 2019-now"
unfolding normalise_for_grounding trim trim_end trim_start collapse join_hyphens is_space
    skip_spaces lower
hyphens_joined = refl

abbrev found_at : Result Error Verified → Option ℕ
found_at (ok v) = some v.offset
found_at (err e) = none

rewrapped_found :
    found_at (verify_fact ascii is_letter is_number min_evidence_chars wrapped sources) ≡ some 0
unfolding verify_fact required lookup same locate normalise_for_grounding trim trim_end trim_start
    collapse join_hyphens is_space skip_spaces lower index_of starts_with
rewrapped_found = refl

-- The word, and not the end of `trust`.
short_word_found :
    found_at (
      verify_fact ascii is_letter is_number min_evidence_chars
        (quoted (codes "Rust") (codes "Rust"))
        sources)
    ≡ some 51
unfolding verify_fact required lookup same locate normalise_for_grounding trim trim_end trim_start
    collapse join_hyphens is_space skip_spaces lower word_hit is_word_at starts_with drop_text
short_word_found = refl

fragment_refused :
    verify_fact ascii is_letter is_number min_evidence_chars
      (quoted (codes "Rust") (codes "rust, g"))
      sources
    ≡ err (evidence_too_short (codes "rust, g"))
unfolding verify_fact required lookup same locate normalise_for_grounding trim trim_end trim_start
    collapse join_hyphens is_space skip_spaces lower
fragment_refused = refl

divergence_of-IsLongest_example :
    (m : ℕ) × (divergence_of (codes "npm, pypi, crates.io") (codes "npm, pypi, and crates.io")
      ≡ some (fork (codes "npm, pypi, crates.io") (codes "npm, pypi, and crates.io") m))
    × IsLongest (codes "npm, pypi, crates.io") (codes "npm, pypi, and crates.io") m
    × (agreed (fork (codes "npm, pypi, crates.io") (codes "npm, pypi, and crates.io") m) ≡ m)
divergence_of-IsLongest_example =
    divergence_of-IsLongest (codes "npm, pypi, crates.io") (codes "npm, pypi, and crates.io")

verify_fact-IsAnswered_example :
    IsAnswered ascii is_letter is_number min_evidence_chars wrapped sources
      (verify_fact ascii is_letter is_number min_evidence_chars wrapped sources)
verify_fact-IsAnswered_example =
    verify_fact-IsAnswered ascii is_letter is_number min_evidence_chars wrapped sources

abbrev proposals : List Fact
proposals = wrapped ∷ quoted (codes "Java") (codes "twelve years of Java") ∷ []

verify_facts-HasPlaces_example :
    HasPlaces ascii is_letter is_number sources proposals
      (qualifying_facts (verify_facts ascii is_letter is_number proposals sources).verified)
      (facts_needing_confirmation
        (verify_facts ascii is_letter is_number proposals sources).verified)
      (verify_facts ascii is_letter is_number proposals sources).rejected
verify_facts-HasPlaces_example = verify_facts-HasPlaces ascii is_letter is_number sources proposals
