-- ===== src/Store/Records/First.antt =====
-- A message that arrives again changes nothing (INV-2).
use yente.Prelude.{
  Text, ◌≡◌, refl, ap, ◌∙◌, Bool, true, false, Option, none, some, List, [], ◌∷◌, same, same_iff,
  Result, ok, err, ◌>>=◌, if◌then◌else◌, arith, Option-cases, Bool-cases, inl, inr,
}
use yente.Store.Cells.{Engine}
use yente.Store.Cells.Laws.{or_else}
use yente.Store.Keys.{Error, message_key}
use yente.Store.Records.{Kept, keep_at, keep_first, Inbound, Message, inbound, record_inbound}

module _ {Db : Type 0} (e : Engine Message Db) (digest : Text → Text) where
  -- A message without an id throws, and nothing is written.
  abbrev pub db_after : Result Error (Kept Message Db) → Db → Db
  db_after (ok k) db = k.db
  db_after (err x) db = db

  unfoldable pub receive_all : List Inbound → Db → Db
  receive_all [] db = db
  receive_all (m ∷ rest) db = receive_all rest (db_after (record_inbound e digest m db) db)

  abbrev is_key : Text → Result Error Text → Bool
  is_key k (ok id) = same id k
  is_key k (err x) = false

  -- The first message with that key.
  unfoldable pub first_under : Text → List Inbound → Option Message
  first_under k [] = none
  first_under k (m ∷ rest) =
      let later = first_under k rest in
      if is_key k (message_key digest m.rfc_message_id) then some (inbound m) else later

  get-keep_at :
      (id k : Text) (r : Message) (old : Option Message) (db : Db)
      → e.get db id ≡ old
      → e.get (keep_at e id r old db).db k
        ≡ or_else (e.get db k) (if same id k then some r else none)
  get-keep_at id k r none db g = elim (Bool-cases (same id k)) [
    | inl s ↦ e.get-put db id k r ∙ ground (arith, s, ap (λ j. e.get db j) ((same_iff id k).0 s), g)
    | inr n ↦ elim (Option-cases (e.get db k)) [
      | inl o ↦ e.get-put db id k r ∙ ground (arith, n, o)
      | inr (x, o) ↦ e.get-put db id k r ∙ ground (arith, n, o)
    ]
  ]
  get-keep_at id k r (some x) db g = elim (Option-cases (e.get db k)) [
    | inr (y, o) ↦ ground (arith, o)
    | inl o ↦ elim (Bool-cases (same id k)) [
      | inl s ↦ absurd (ground (arith, ap (λ j. e.get db j) ((same_iff id k).0 s), g, o))
      | inr n ↦ ground (arith, n, o)
    ]
  ]

  received :
      (m : Inbound) (key : Result Error Text) (db : Db) (k : Text)
      → e.get (db_after (key >>= λ id. ok (keep_first e id (inbound m) db)) db) k
        ≡ or_else (e.get db k) (if is_key k key then some (inbound m) else none)
  unfolding keep_first
  received m (ok id) db k = get-keep_at id k (inbound m) (e.get db id) db refl
  received m (err x) db k = elim (Option-cases (e.get db k)) [
    | inl o ↦ ground (arith, o)
    | inr (y, o) ↦ ground (arith, o)
  ]

  then_later :
      (old : Option Message) (m : Message) (b : Bool) (later : Option Message)
      → or_else (or_else old (if b then some m else none)) later
        ≡ or_else old (if b then some m else later)
  then_later none m true later = refl
  then_later none m false later = refl
  then_later (some x) m b later = refl

  -- However often messages arrive, under whatever spelling of their ids, the collection holds under a key
  -- what stood there before, or else the first message with that key.
  pub get-receive_all :
      (ms : List Inbound) (db : Db) (k : Text)
      → e.get (receive_all ms db) k ≡ or_else (e.get db k) (first_under k ms)
  unfolding receive_all first_under record_inbound
  get-receive_all [] db k = elim (Option-cases (e.get db k)) [
    | inl o ↦ ground (arith, o)
    | inr (y, o) ↦ ground (arith, o)
  ]
  get-receive_all (m ∷ rest) db k =
      let key = message_key digest m.rfc_message_id in
      get-receive_all rest (db_after (record_inbound e digest m db) db) k
      ∙ ap (λ o. or_else o (first_under k rest)) (received m key db k)
      ∙ then_later (e.get db k) (inbound m) (is_key k key) (first_under k rest)
