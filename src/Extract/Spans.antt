-- ===== src/Extract/Spans.antt =====
-- src/extract/spans.js: a fact that a model proposes is kept only if the words that it quotes stand in
-- the source that it cites. Unicode's tables are arguments: the compatibility form (`normalize("NFKC")`),
-- the letters (`\p{L}`) and the numbers (`\p{N}`). Lower case is that of ASCII.
pub mod Longest
pub mod Grounded
pub mod Answered
pub mod Qualifying
mod Tests
use yente.Prelude.{
  Text, ℕ, zero, suc, ◌+◌, ◌-◌, ◌/◌, Bool, true, false, not, ◌&&◌, ◌||◌, Option, none, some, List,
  [], ◌∷◌, ◌++◌, codes, leb, ltb, same, map, length, lookup, if◌then◌else◌, ◌==◌, Result, ok, err,
  ◌>>=◌, ◌>>◌, throw_if,
}
use yente.Domain.Address.{lower, trim, is_space}
use yente.Graph.Consent.{collapse, contains, take_text, drop_text, string_of}
use yente.Store.Jobs.{starts_with}

-- MIN_EVIDENCE_CHARS
abbrev pub min_evidence_chars : ℕ
min_evidence_chars = 12

-- The four replacements of one character each.
abbrev pub fold_mark : ℕ → ℕ
fold_mark c =
    if (leb 8208 c && leb c 8213) || c == 8722
    then 45
    else (if c == 8216 || (c == 8217 || (c == 8219 || c == 700))
        then 39
        else (if c == 8220 || (c == 8221 || c == 8223)
            then 34
            else (if c == 160 || (c == 8199 || c == 8239) then 32 else c)))

-- `text.indexOf(part)`, with -1 as none.
abbrev later : Option ℕ → Option ℕ
later none = none
later (some i) = some (suc i)

unfoldable pub index_of : Text → Text → Option ℕ
index_of part [] = if starts_with part [] then some 0 else none
index_of part (c ∷ cs) =
    let rest = index_of part cs in if starts_with part (c ∷ cs) then some 0 else later rest

-- `Math.ceil((lo + hi) / 2)`
abbrev pub middle : ℕ → ℕ → ℕ
middle lo hi = (lo + hi + 1) / 2

-- The loop of `divergenceOf`, for at most so many rounds; none if they are not enough.
unfoldable pub narrow : ℕ → Text → Text → ℕ → ℕ → Option ℕ
narrow zero haystack needle lo hi = if ltb lo hi then none else some lo
narrow (suc rounds) haystack needle lo hi =
    let up = narrow rounds haystack needle (middle lo hi) hi in
    let down = narrow rounds haystack needle lo (middle lo hi - 1) in
    if ltb lo hi
    then (if contains (take_text (middle lo hi) needle) haystack then up else down)
    else some lo

-- Where a quote leaves its source: the characters that agree, and the ends of both.
pub data Divergence : Type 0 where
  no_foothold : ℕ → Divergence
  forks : ℕ → Text → Text → Text → Divergence

abbrev pub offset_or_end : Option ℕ → ℕ
offset_or_end none = 0
offset_or_end (some at) = at

abbrev pub fork : Text → Text → ℕ → Divergence
fork haystack needle n =
    if ltb n min_evidence_chars
    then no_foothold n
    else forks n (drop_text (n - 30) (take_text n needle)) (take_text 30 (drop_text n needle)) (
        take_text 30
          (drop_text (offset_or_end (index_of (take_text n needle) haystack) + n) haystack))

abbrev pub fork_at : Text → Text → Option ℕ → Option Divergence
fork_at haystack needle none = none
fork_at haystack needle (some n) = some (fork haystack needle n)

unfoldable pub divergence_of : Text → Text → Option Divergence
divergence_of haystack needle =
    fork_at haystack needle (narrow (length needle) haystack needle 0 (length needle))

-- A fact as the model proposes it.
pub record Fact : Type 0 where
  pub field : Option Text
  pub value : Option Text
  pub source_id : Option Text
  pub evidence : Option Text
  pub explicit : Bool
  pub confidence : Option Text

pub record Verified : Type 0 where
  pub field : Text
  pub value : Text
  pub source_id : Text
  pub evidence : Text
  pub offset : ℕ
  pub explicit : Bool
  pub confidence : Text

pub data Error : Type 0 where
  incomplete_fact unknown_source : Text → Error
  evidence_too_short : Text → Error
  not_a_whole_word : Text → Error
  span_not_found : Text → Option Divergence → Error

unfoldable pub required : Text → Option Text → Result Error Text
required name none = err (incomplete_fact name)
required name (some []) = err (incomplete_fact name)
required name (some (c ∷ cs)) = ok (c ∷ cs)

abbrev pub or_error : Error → Option Text → Result Error Text
or_error e none = err e
or_error e (some t) = ok t

module _ (nfkc : Text → Text) (is_letter is_number : ℕ → Bool) where
  abbrev at_letter : Text → Bool
  at_letter [] = false
  at_letter (c ∷ cs) = is_letter c

  unfoldable pub skip_spaces : Text → Text
  skip_spaces [] = []
  skip_spaces (c ∷ cs) = if is_space c then skip_spaces cs else c ∷ cs

  -- `replace(/(?<=\p{L})-\s*(?=\p{L})/gu, "")`, behind a letter or not, and while it passes over the
  -- white space of a hyphen that goes.
  unfoldable pub join_hyphens : Bool → Bool → Text → Text
  join_hyphens behind passing [] = []
  join_hyphens behind passing (c ∷ cs) =
      let on = join_hyphens false true cs in
      let rest = join_hyphens (is_letter c) false cs in
      if (passing && is_space c) || (behind && (c == 45 && at_letter (skip_spaces cs)))
      then on
      else c ∷ rest

  unfoldable pub normalise_for_grounding : Text → Text
  normalise_for_grounding value =
      map lower (trim (collapse false (join_hyphens false false (map fold_mark (nfkc value)))))

  abbrev pub is_alphanumeric : ℕ → Bool
  is_alphanumeric c = is_letter c || is_number c

  abbrev at_alphanumeric : Text → Bool
  at_alphanumeric [] = false
  at_alphanumeric (c ∷ cs) = is_alphanumeric c

  -- A match of the pattern that asks for no letter or number on either side.
  unfoldable pub is_word_at : Bool → Text → Text → Bool
  is_word_at behind needle text =
      not behind
      && (starts_with needle text && not (at_alphanumeric (drop_text (length needle) text)))

  unfoldable pub word_hit : Bool → Text → Text → Option ℕ
  word_hit behind needle [] = if is_word_at behind needle [] then some 0 else none
  word_hit behind needle (c ∷ cs) =
      let rest = word_hit (is_alphanumeric c) needle cs in
      if is_word_at behind needle (c ∷ cs) then some 0 else later rest

  abbrev stated : Option Text → Text
  stated none = codes "unstated"
  stated (some t) = t

  abbrev pub verified_at : Fact → Text → Text → Text → Text → ℕ → Verified
  verified_at f field value source_id evidence offset = record {
    field = field;
    value = value;
    source_id = source_id;
    evidence = evidence;
    offset = offset;
    explicit = f.explicit;
    confidence = stated f.confidence;
  }

  -- A quote that is the value itself, found as a whole word.
  abbrev pub hit_or_error : Text → Option ℕ → Result Error ℕ
  hit_or_error evidence none = err (not_a_whole_word (take_text 120 evidence))
  hit_or_error evidence (some at) = ok at

  abbrev pub span_or_error : Text → Text → Text → Option ℕ → Result Error ℕ
  span_or_error evidence haystack needle none =
      err (span_not_found (take_text 120 evidence) (divergence_of haystack needle))
  span_or_error evidence haystack needle (some at) = ok at

  -- The offset of a quote, given the normal forms of source, quote and value.
  unfoldable pub locate : ℕ → Text → Text → Text → Text → Result Error ℕ
  locate min_chars evidence haystack needle own =
      if ltb (length needle) min_chars
      then (if same needle own
          then hit_or_error evidence (word_hit false needle haystack)
          else err (evidence_too_short evidence))
      else span_or_error evidence haystack needle (index_of needle haystack)

  unfoldable pub verify_fact : ℕ → Fact → List (Text × Text) → Result Error Verified
  verify_fact min_chars f sources = do
    field ← required (codes "field") f.field
    value ← required (codes "value") f.value
    source_id ← required (codes "source_id") f.source_id
    evidence ← required (codes "evidence") f.evidence
    source ← or_error (unknown_source source_id) (lookup source_id sources)
    offset ←
        locate min_chars evidence (normalise_for_grounding source)
          (normalise_for_grounding evidence) (normalise_for_grounding value)
    ok (verified_at f field value source_id evidence offset)

  pub record Checked : Type 0 where
    pub verified : List Verified
    pub rejected : List (Fact × Error)

  abbrev pub sort_in : Fact → Result Error Verified → Checked → Checked
  sort_in f (ok v) rest = record rest { verified = v ∷ rest.verified }
  sort_in f (err e) rest = record rest { rejected = (f, e) ∷ rest.rejected }

  unfoldable pub verify_facts : List Fact → List (Text × Text) → Checked
  verify_facts [] sources = record { verified = []; rejected = [] }
  verify_facts (f ∷ fs) sources =
      sort_in f (verify_fact min_evidence_chars f sources) (verify_facts fs sources)

unfoldable pub qualifying_facts : List Verified → List Verified
qualifying_facts [] = []
qualifying_facts (v ∷ vs) = let rest = qualifying_facts vs in if v.explicit then v ∷ rest else rest

unfoldable pub facts_needing_confirmation : List Verified → List Verified
facts_needing_confirmation [] = []
facts_needing_confirmation (v ∷ vs) =
    let rest = facts_needing_confirmation vs in if v.explicit then rest else v ∷ rest
