-- ===== src/Intelligence/Bound/Tests.antt =====
-- Two sources, one of them too long.
use yente.Prelude.{Text, ℕ, ◌≡◌, some, List, [], ◌∷◌, codes}
use yente.Intelligence.Bound.{Source, bound_sources}
use yente.Intelligence.Bound.Excerpt.{AllRead, total_chars, total_kept, bound_sources-AllRead}

abbrev printed : ℕ → Text
printed n = codes "7"

abbrev sources : List Source
sources =
    record { id = codes "a"; text = some (codes "short") }
    ∷ record { id = codes "b"; text = some (codes "a text of 17 chars") }
    ∷ []

bound_sources-AllRead_example :
    AllRead printed 10 sources (bound_sources printed 10 sources).0
    × ((bound_sources printed 10 sources).1.original_chars ≡ total_chars sources)
    × ((bound_sources printed 10 sources).1.kept_chars
        ≡ total_kept (bound_sources printed 10 sources).0)
bound_sources-AllRead_example = bound_sources-AllRead printed 10 sources
