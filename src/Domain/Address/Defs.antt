-- ===== src/Domain/Address/Defs.antt =====
-- normalizeAddress of src/domain/member.js, over character codes: lower case is that of ASCII, white
-- space is what `trim` removes. `none` is the TypeError for a text that is no address.
use yente.Prelude.{
  Text, ℕ, suc, ◌+◌, Bool, true, false, ◌&&◌, ◌||◌, Option, none, some, [], ◌∷◌, map, leb, ◌==◌,
  if◌then◌else◌, length,
}

unfoldable pub is_space : ℕ → Bool
is_space c =
    (leb 9 c && leb c 13)
    || c == 32
    || c == 160
    || c == 5760
    || (leb 8192 c && leb c 8202)
    || c == 8232
    || c == 8233
    || c == 8239
    || c == 8287
    || c == 12288
    || c == 65279

unfoldable pub lower : ℕ → ℕ
lower c = if leb b'A' c && leb c b'Z' then c + 32 else c

unfoldable pub trim_start : Text → Text
trim_start [] = []
trim_start (c ∷ s) = if is_space c then trim_start s else c ∷ s

abbrev pub is_empty : Text → Bool
is_empty [] = true
is_empty (c ∷ s) = false

unfoldable pub trim_end : Text → Text
trim_end [] = []
trim_end (c ∷ s) = let rest = trim_end s in if is_empty rest && is_space c then [] else c ∷ rest

unfoldable pub trim : Text → Text
trim s = trim_end (trim_start s)

unfoldable pub last_index_of : ℕ → Text → Option ℕ
last_index_of c [] = none
last_index_of c (x ∷ s) = elim (last_index_of c s) [
  | some i ↦ some (suc i)
  | none ↦ if x == c then some 0 else none
]

abbrev pub is_inside : Option ℕ → ℕ → Bool
is_inside none n = false
is_inside (some i) n = leb 1 i && leb (suc (suc i)) n

unfoldable pub normalize_address : Text → Option Text
normalize_address address =
    let trimmed = trim address in
    if is_inside (last_index_of b'@' trimmed) (length trimmed)
    then some (map lower trimmed)
    else none
