-- ===== src/Domain/Member/Invariant.antt =====
-- INV-4: the state of a member claims no more than the qualification check found.
use yente.Prelude.{
  Text, ℕ, ◌≡◌, refl, sym, subst, ◌⊎◌, inl, inr, true, Option, none, some, List, [], ◌∷◌, ◌++◌, ok,
  arith, Option-cases, Bool-cases, same, same_refl, same_iff, lookup, insert, lookup-insert, ◌≢◌,
}
use mathlib.Core.List.{Memᴰ}
use yente.Domain.Address.{normalize_address, normalize_address_idem}
use yente.Domain.Member.{
  Member, Event, was_qualified, was_stopped, was_deleted, detail, State, Record, Input,
  Qualification, new, needs_profile, interviewing, qualified, active, is_terminal, advance,
  begin_intake, begin_interview, require_more_evidence, activate, stop_member, delete_member,
  create_member, allows,
}
use yente.Domain.Member.Runs.{
  Call, call, begins_intake, begins_interview, activates, requires_evidence, marks_qualified, stops,
  deletes, Reached, created, next,
}
use yente.Domain.Member.Qualified.{moved, advance_cases, marked, mark_qualified_cases}

-- Every qualification that is held stands in the history.
abbrev pub Certified : List (Text × Record) → List (Event × ℕ) → Type 0
Certified qualifications history =
    (policy : Text) (r : Record)
    → lookup policy qualifications ≡ some r
    → Memᴰ (was_qualified policy r.policy_version, r.qualified_at) history

pub record HasRecord (qualifications : List (Text × Record)) : Type 0 where
  pub policy : Text
  pub held : Record
  pub found : lookup policy qualifications ≡ some held

pub record IsValid (m : Member) : Type 0 where
  pub normal : normalize_address m.address ≡ some m.address
  pub certified : Certified m.qualifications m.history
  pub backed : (m.state ≡ qualified) ⊎ (m.state ≡ active) → HasRecord m.qualifications

mem-append : {x : Event × ℕ} (h k : List (Event × ℕ)) → Memᴰ x h → Memᴰ x (h ++ k)
mem-append [] k m = elim m [ ]
mem-append (y ∷ h) k (Memᴰ.head e) = Memᴰ.head e
mem-append (y ∷ h) k (Memᴰ.tail t) = Memᴰ.tail (mem-append h k t)

mem-append_self : (x : Event × ℕ) (h : List (Event × ℕ)) → Memᴰ x (h ++ x ∷ [])
mem-append_self x [] = Memᴰ.head refl
mem-append_self x (y ∷ h) = Memᴰ.tail (mem-append_self x h)

from_qualified :
    (s to : State)
    → allows s to ≡ true
    → to ≢ qualified
    → (to ≡ qualified) ⊎ (to ≡ active)
    → s ≡ qualified
unfolding allows
from_qualified s to a n q = ground arith

moved-IsValid :
    (m : Member) (to : State) (event : Event) (at : ℕ)
    → IsValid m
    → allows m.state to ≡ true
    → to ≢ qualified
    → IsValid (moved m to event at)
unfolding allows
moved-IsValid m to event at h a n = record {
  normal = h.normal;
  certified = λ policy r f. mem-append m.history _ (h.certified policy r f);
  backed = λ s. h.backed (inl (from_qualified m.state to a n s));
}

create_cases :
    (i : Input) (m : Member) (a : Text)
    → i.address ≡ some a
    → create_member i ≡ ok m
    → (normalize_address a ≡ some m.address) × (m.state ≡ new) × (m.qualifications ≡ [])
unfolding create_member
create_cases i m a e k = ground arith

create_needs_address : (i : Input) (m : Member) → i.address ≡ none → create_member i ≡ ok m → ⊥
unfolding create_member
create_needs_address i m e k = ground arith

nothing_held : (policy : Text) (r : Record) → lookup policy [] ≡ some r → ⊥
unfolding lookup
nothing_held policy r f = cc

create_member-IsValid : (i : Input) (m : Member) → create_member i ≡ ok m → IsValid m
create_member-IsValid i m k = elim (Option-cases i.address) [
  | inl e ↦ absurd (create_needs_address i m e k)
  | inr (a, e) ↦
      let (normal, fresh, no_record) = create_cases i m a e k in
      record {
        normal = normalize_address_idem a normal;
        certified = λ policy r f.
            absurd (nothing_held policy r (subst (λ q. lookup policy q ≡ some r) no_record f));
        backed = λ s. absurd (ground arith);
      }
]

certify :
    (policy id version : Text) (at : ℕ) (r : Record) (qs : List (Text × Record))
    (h : List (Event × ℕ))
    → Certified qs h
    → lookup policy (insert id (record { policy_version = version; qualified_at = at }) qs) ≡ some r
    → Memᴰ
        (was_qualified policy r.policy_version, r.qualified_at)
        (h ++ (was_qualified id version, at) ∷ [])
certify policy id version at r qs h c f = elim (Bool-cases (same id policy)) [
  | inl e ↦
      subst (λ x. Memᴰ x (h ++ (was_qualified id version, at) ∷ []))
        (ground (
          arith,
          lookup-insert id policy (record { policy_version = version; qualified_at = at }) qs,
          same_iff id policy,
        ))
        (mem-append_self (was_qualified id version, at) h)
  | inr e ↦ mem-append h _ (
      c policy r (
        ground (
          arith,
          lookup-insert id policy (record { policy_version = version; qualified_at = at }) qs,
        )))
]

marked-IsValid : (m : Member) (q : Qualification) (at : ℕ) → IsValid m → IsValid (marked m q at)
marked-IsValid m q at h = record {
  normal = h.normal;
  certified = λ policy r f.
      certify policy q.policy_id q.policy_version at r m.qualifications m.history h.certified f;
  backed = λ s. record {
    policy = q.policy_id;
    held = record { policy_version = q.policy_version; qualified_at = at };
    found = rw (lookup-insert, same_refl);
  };
}

-- The member that a stop or a deletion returns: itself, or one with a further event in a final state.
ended_cases :
    (m n : Member) (at : ℕ) (reason : Option Text)
    → (stop_member m at reason ≡ ok n) ⊎ (delete_member m at reason ≡ ok n)
    → (n ≡ m)
      ⊎ ((is_terminal n.state ≡ true)
          × (n.address ≡ m.address)
          × (n.qualifications ≡ m.qualifications)
          × ((n.history ≡ m.history ++ (was_stopped (detail reason), at) ∷ [])
              ⊎ (n.history ≡ m.history ++ (was_deleted (detail reason), at) ∷ [])))
unfolding stop_member delete_member
ended_cases m n at reason e = ground arith

kept_history :
    (qs : List (Text × Record)) (h k : List (Event × ℕ)) → Certified qs h → Certified qs (h ++ k)
kept_history qs h k c policy r f = mem-append h k (c policy r f)

ended-IsValid :
    (m n : Member) (at : ℕ) (reason : Option Text)
    → IsValid m
    → (stop_member m at reason ≡ ok n) ⊎ (delete_member m at reason ≡ ok n)
    → IsValid n
ended-IsValid m n at reason h e = elim (ended_cases m n at reason e) [
  | inl f ↦ subst IsValid (sym f) h
  | inr (t, a, q, f) ↦ record {
    normal = rw a h.normal;
    certified = rw q (history_cases f);
    backed = λ s. absurd (ground arith);
  }
]
  where
    history_cases :
        (n.history ≡ m.history ++ (was_stopped (detail reason), at) ∷ [])
          ⊎ (n.history ≡ m.history ++ (was_deleted (detail reason), at) ∷ [])
        → Certified m.qualifications n.history
    history_cases (inl g) = rw g (kept_history m.qualifications m.history _ h.certified)
    history_cases (inr g) = rw g (kept_history m.qualifications m.history _ h.certified)

advance-IsValid :
    (m n : Member) (to : State) (at : ℕ) (event : Event)
    → to ≢ qualified
    → IsValid m
    → advance m to at event ≡ ok n
    → IsValid n
advance-IsValid m n to at event ne h e =
    let (a, f) = advance_cases m n to at event e in
    subst IsValid (sym f) (moved-IsValid m to event at h a ne)

call-IsValid : (c : Call) (m n : Member) → IsValid m → call c m ≡ ok n → IsValid n
unfolding call begin_intake begin_interview require_more_evidence activate
call-IsValid (begins_intake at) m n h e = advance-IsValid m n needs_profile at _ (λ p. cc) h e
call-IsValid (begins_interview at) m n h e = advance-IsValid m n interviewing at _ (λ p. cc) h e
call-IsValid (activates at) m n h e = advance-IsValid m n active at _ (λ p. cc) h e
call-IsValid (requires_evidence at reason policy) m n h e =
    advance-IsValid m n needs_profile at _ (λ p. cc) h e
call-IsValid (marks_qualified q at) m n h e =
    subst IsValid (sym (mark_qualified_cases m n q at e).1) (marked-IsValid m q at h)
call-IsValid (stops at reason) m n h e = ended-IsValid m n at reason h (inl e)
call-IsValid (deletes at reason) m n h e = ended-IsValid m n at reason h (inr e)

-- Of every member that the operations reach: the address is in normal form; each qualification that
-- is held stands in the history with its version and time; and a qualified or active member holds one.
pub Reached-IsValid : {i : Input} (m : Member) → Reached i m → IsValid m
Reached-IsValid {i} m (created e) = create_member-IsValid i m e
Reached-IsValid m (next {m = k} c r e) = call-IsValid c k m (Reached-IsValid k r) e
