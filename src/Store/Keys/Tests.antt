-- ===== src/Store/Keys/Tests.antt =====
-- Keys of a message and of a match.
use yente.Prelude.{Text, ◌≡◌, refl, some, [], ◌++◌, codes}
use yente.Domain.Address.{trim, trim_start, trim_end, is_space}
use yente.Store.Keys.{Parts, message_key, segment, all_safe, drop_close}

abbrev hashed : Text → Text
hashed t = codes "#" ++ t

-- The brackets of a message id are no part of it.
brackets_folded : message_key hashed (codes " <m1@host> ") ≡ message_key hashed (codes "m1@host")
unfolding message_key segment all_safe drop_close trim trim_start trim_end is_space
brackets_folded = refl

abbrev parts : Parts
parts = record {
  policy_id = codes "hiring";
  policy_version = some (codes "2");
  member_ids = [];
  cycle = some (codes "7");
}
