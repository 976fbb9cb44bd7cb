-- ===== src/Store/Evidence.antt =====
-- src/store/graph.js: EvidenceRepository, what arrived, and DecisionRepository, what people ruled. The
-- values of the fields of `meta` and of `detail` are texts.
mod Tests
use yente.Prelude.{
  Text, ℕ, ◌≡◌, refl, sym, ap, ◌∙◌, Bool, true, false, Option, none, some, List, [], ◌∷◌, ◌++◌,
  codes, lookup, insert, same, same_iff, if◌then◌else◌, arith,
}
use yente.Store.Cells.{Engine, Outcome, null, kept, written, thrown, row_after, edit}
use yente.Store.Cells.Laws.{get-edit}

pub record Evidence : Type 0 where
  pub kind : Text
  pub content_hash : Text
  pub text : Option Text
  pub meta : List (Text × Text)
  pub received_at : ℕ

unfoldable pub evidence_key : Text → Text → Text
evidence_key kind content_hash = kind ++ (58 ∷ content_hash)

unfoldable pub record_row : Evidence → Option Evidence → Outcome Evidence
record_row evidence none = written evidence
record_row evidence (some existing) = kept existing

-- `{ ...meta, ...fields }`
unfoldable pub merge : List (Text × Text) → List (Text × Text) → List (Text × Text)
merge meta [] = meta
merge meta ((k, v) ∷ fields) = merge (insert k v meta) fields

unfoldable pub update_row : List (Text × Text) → Option Evidence → Outcome Evidence
update_row fields none = null
update_row fields (some held) = written (record held { meta = merge held.meta fields })

pub data Call : Type 0 where
  records : Evidence → Call
  updates_meta : Text → List (Text × Text) → Call

pub record Decision : Type 0 where
  pub kind : Text
  pub target : Text
  pub verdict : Text
  pub by : Text
  pub at : Text
  pub detail : List (Text × Text)
  pub caused_by : List Text

-- `detail.evidenceId ? [detail.evidenceId] : []`
abbrev pub causes : Option Text → List Text
causes none = []
causes (some []) = []
causes (some (c ∷ cs)) = (c ∷ cs) ∷ []

abbrev decision_of : Text → Text → Text → Text → Text → List (Text × Text) → Decision
decision_of kind target verdict by at detail = record {
  kind = kind;
  target = target;
  verdict = verdict;
  by = by;
  at = at;
  detail = detail;
  caused_by = causes (lookup (codes "evidenceId") detail);
}

module _ {Db : Type 0} (e : Engine Decision Db) (digest : Text → Text) where
  unfoldable pub decision_key : Decision → Text
  decision_key d =
      digest (d.kind ++ (31 ∷ (d.target ++ (31 ∷ (d.verdict ++ (31 ∷ (d.by ++ (31 ∷ d.at))))))))

  unfoldable pub record_decision : Db → Text → Text → Text → Text → Text → List (Text × Text) → Db
  record_decision db kind target verdict by at detail =
      let d = decision_of kind target verdict by at detail in e.put db (decision_key d) d

-- What arrived, as it arrived.
pub record SameContent (held now : Evidence) : Type 0 where
  pub same_kind : now.kind ≡ held.kind
  pub same_hash : now.content_hash ≡ held.content_hash
  pub same_text : now.text ≡ held.text
  pub same_time : now.received_at ≡ held.received_at

module _ {Db : Type 0} (e : Engine Evidence Db) where
  unfoldable pub act : Db → Call → Db
  act db (records evidence) =
      edit e db (evidence_key evidence.kind evidence.content_hash) (record_row evidence)
  act db (updates_meta id fields) = edit e db id (update_row fields)

  unfoldable pub act_all : Db → List Call → Db
  act_all db [] = db
  act_all db (c ∷ cs) = act_all (act db c) cs

  updated :
      (db : Db) (j : Text) (fields : List (Text × Text)) (id : Text) (held : Evidence)
      → e.get db id ≡ some held
      → (b : Bool) → same j id ≡ b
      → (now : Evidence) × (e.get (edit e db j (update_row fields)) id ≡ some now)
        × SameContent held now
  unfolding update_row
  updated db j fields id held h true s = (
    record held { meta = merge held.meta fields },
    ground (arith, get-edit e db j id (update_row fields), same_iff j id),
    ground arith,
  )
  updated db j fields id held h false s =
      (held, ground (arith, get-edit e db j id (update_row fields), same_iff j id), ground arith)

  get-act :
      (db : Db) (c : Call) (id : Text) (held : Evidence)
      → e.get db id ≡ some held
      → (now : Evidence) × (e.get (act db c) id ≡ some now) × SameContent held now
  unfolding act record_row
  get-act db (records evidence) id held h = (
    held,
    ground (
      arith,
      get-edit e db (evidence_key evidence.kind evidence.content_hash) id (record_row evidence),
      same_iff (evidence_key evidence.kind evidence.content_hash) id,
    ),
    ground arith,
  )
  get-act db (updates_meta j fields) id held h = updated db j fields id held h (same j id) refl

  -- Through any calls on the collection, a message or an attachment that it holds keeps its kind, its
  -- hash, its text and the time at which it arrived.
  pub evidence_kept :
      (db : Db) (cs : List Call) (id : Text) (held : Evidence)
      → e.get db id ≡ some held
      → (now : Evidence) × (e.get (act_all db cs) id ≡ some now) × SameContent held now
  unfolding act_all
  evidence_kept db [] id held h = (held, h, ground arith)
  evidence_kept db (c ∷ cs) id held h =
      let (next, found, first) = get-act db c id held h in
      let (now, stands, rest) = evidence_kept (act db c) cs id next found in
      (now, stands, ground arith)
