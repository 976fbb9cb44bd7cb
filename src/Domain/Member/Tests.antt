-- ===== src/Domain/Member/Tests.antt =====
-- A member, at concrete inputs.
use yente.Prelude.{◌≡◌, refl, true, false, none, some, List, [], ◌∷◌, ok, arith, codes}
use yente.Domain.Address.{
  normalize_address, trim, lower, is_space, trim_start, trim_end, last_index_of,
}
use yente.Domain.Member.{
  Member, Input, Qualification, active, create_member, advance, allows, begin_intake,
  begin_interview, new, member_created, mark_qualified, activate, stop_member, can_receive_outbound,
}
use yente.Domain.Member.Runs.{
  Call, call, begins_intake, begins_interview, activates, marks_qualified, kept, run, created,
  Reached-run,
}
use yente.Domain.Member.Suppression.{suppression_final}
use yente.Domain.Member.Invariant.{IsValid, Reached-IsValid}

abbrev ada : Input
ada = record {
  member_id = some (codes "mem_1");
  address = some (codes " Ada@Example.COM ");
  inbound_established_at = some 3;
  created_at = 4;
}

abbrev newcomer : Member
newcomer = record {
  member_id = codes "mem_1";
  address = codes "ada@example.com";
  state = new;
  inbound_established_at = 3;
  qualifications = [];
  stopped_at = none;
  deleted_at = none;
  history = (member_created, 4) ∷ [];
}

newcomer_created : create_member ada ≡ ok newcomer
unfolding create_member normalize_address is_space trim_start trim_end trim last_index_of lower
newcomer_created = refl

no_domain : normalize_address (codes "ada@") ≡ none
unfolding normalize_address is_space trim_start trim_end trim last_index_of lower
no_domain = refl

abbrev passed : Qualification
passed = record { qualified = true; policy_id = codes "p"; policy_version = codes "1" }

abbrev intake : List Call
intake = begins_intake 5 ∷ begins_interview 6 ∷ []

abbrev to_active : List Call
to_active = begins_intake 5 ∷ begins_interview 6 ∷ marks_qualified passed 7 ∷ activates 8 ∷ []

becomes_active : (run newcomer to_active).state ≡ active
unfolding run call begin_intake begin_interview mark_qualified activate advance allows
becomes_active = refl

suppression_final_example :
    can_receive_outbound (run (kept newcomer (stop_member newcomer 9 none)) to_active) ≡ false
suppression_final_example = (suppression_final newcomer 9 none to_active (omega arith)).0

Reached-IsValid_example : IsValid (run newcomer to_active)
Reached-IsValid_example =
    Reached-IsValid (run newcomer to_active)
      (Reached-run newcomer to_active (created newcomer_created))
