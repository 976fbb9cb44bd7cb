-- ===== src/Intelligence/Bound.antt =====
-- src/intelligence/bound.js: a text that is too long keeps its beginning and its end. `toLocaleString` of
-- a number is an argument, and so is the limit that the environment may set.
pub mod Excerpt
mod Tests
use yente.Prelude.{
  Text, ℕ, suc, ◌+◌, ◌-◌, ◌*◌, ◌/◌, Bool, true, false, Option, none, some, List, [], ◌∷◌, ◌++◌,
  codes, leb, length, if◌then◌else◌,
}
use yente.Graph.Consent.{take_text, drop_text}

-- DEFAULT_MAX_SOURCE_CHARS, without YENTE_MAX_SOURCE_CHARS.
abbrev pub default_max_source_chars : ℕ
default_max_source_chars = 16000

-- `Math.ceil(chars / 4)`
abbrev pub estimate_tokens : ℕ → ℕ
estimate_tokens chars = (chars + 3) / 4

pub record Bounded : Type 0 where
  pub text : Text
  pub truncated : Bool
  pub original_chars : ℕ
  pub kept_chars : ℕ
  pub dropped_chars : ℕ

-- `Math.floor(maxChars * 0.66)`
abbrev pub head_chars : ℕ → ℕ
head_chars max_chars = 66 * max_chars / 100

abbrev pub whole : Text → Bounded
whole source = record {
  text = source;
  truncated = false;
  original_chars = length source;
  kept_chars = length source;
  dropped_chars = 0;
}

abbrev pub string_of : Option Text → Text
string_of none = []
string_of (some t) = t

abbrev pub flag : Bool → ℕ
flag true = 1
flag false = 0

pub record Source : Type 0 where
  pub id : Text
  pub text : Option Text

pub record BoundedSource : Type 0 where
  pub id : Text
  pub text : Text
  pub truncated : Bool

pub record Report : Type 0 where
  pub original_chars : ℕ
  pub kept_chars : ℕ
  pub truncated : ℕ
  pub estimated_tokens : ℕ

module _ (to_locale : ℕ → Text) where
  abbrev pub marker : ℕ → Text
  marker dropped =
      10
      ∷ 10
      ∷ (codes "[... "
          ++ (to_locale dropped
              ++ (codes
                    " characters omitted from the middle of this source. You are reading an excerpt: the beginning and the end. Do not quote across the gap, and do not infer what was in it. ...]"
                  ++ 10 ∷ 10 ∷ [])))

  abbrev pub excerpt : ℕ → Text → Bounded
  excerpt max_chars source = record {
    text =
        take_text (head_chars max_chars) source
        ++ (marker (length source - max_chars)
            ++ drop_text (length source - (max_chars - head_chars max_chars)) source);
    truncated = true;
    original_chars = length source;
    kept_chars = max_chars;
    dropped_chars = length source - max_chars;
  }

  unfoldable pub bound_source : ℕ → Option Text → Bounded
  bound_source max_chars text =
      if leb (length (string_of text)) max_chars
      then whole (string_of text)
      else excerpt max_chars (string_of text)

  -- The sums and counts of the loop, before the report is made of them.
  pub record Sums : Type 0 where
    pub sources : List BoundedSource
    pub original_chars : ℕ
    pub kept_chars : ℕ
    pub truncated : ℕ

  unfoldable pub bound_all : ℕ → List Source → Sums
  bound_all max_chars [] = record {
    sources = [];
    original_chars = 0;
    kept_chars = 0;
    truncated = 0;
  }
  bound_all max_chars (s ∷ rest) =
      let r = bound_source max_chars s.text in
      let others = bound_all max_chars rest in
      record {
        sources = record { id = s.id; text = r.text; truncated = r.truncated } ∷ others.sources;
        original_chars = r.original_chars + others.original_chars;
        kept_chars = length r.text + others.kept_chars;
        truncated = flag r.truncated + others.truncated;
      }

  unfoldable pub bound_sources : ℕ → List Source → List BoundedSource × Report
  bound_sources max_chars sources =
      let all = bound_all max_chars sources in
      (
        all.sources,
        record {
          original_chars = all.original_chars;
          kept_chars = all.kept_chars;
          truncated = all.truncated;
          estimated_tokens = estimate_tokens all.kept_chars;
        },
      )
