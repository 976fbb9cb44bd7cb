-- ===== src/Store/Cells/Laws.antt =====
-- What one edit, one sweep and one query say of each row.
use yente.Prelude.{
  Text, ◌≡◌, refl, ◌∙◌, Bool, Option, none, some, is_some, List, [], ◌∷◌, includes, same, same_iff,
  if◌then◌else◌, arith, lookup, insert, lookup-insert,
}
use yente.Store.Cells.{
  Engine, Outcome, null, kept, written, thrown, row_after, store_outcome, edit, sweep, put_some,
  read_by, select, keep_if,
}

abbrev pub or_else {ℓ} : {A : Type ℓ} → Option A → Option A → Option A
or_else none b = b
or_else (some a) b = some a

abbrev pub kept_by : {Row : Type 0} → (Row → Bool) → Option Row → Option Row
kept_by p none = none
kept_by p (some r) = if p r then some r else none

module _ {Row Db : Type 0} (e : Engine Row Db) where
  get-store_outcome :
      (db : Db) (id j : Text) (o : Outcome Row)
      → e.get (store_outcome e db id o) j
        ≡ (if same id j then row_after (e.get db id) o else e.get db j)
  get-store_outcome db id j null = ground (arith, same_iff id j)
  get-store_outcome db id j (kept r) = ground (arith, same_iff id j)
  get-store_outcome db id j (written r) = e.get-put db id j r
  get-store_outcome db id j thrown = ground (arith, same_iff id j)

  -- An edit acts on its own row alone.
  pub get-edit :
      (db : Db) (id j : Text) (f : Option Row → Outcome Row)
      → e.get (edit e db id f) j
        ≡ (if same id j then row_after (e.get db id) (f (e.get db id)) else e.get db j)
  unfolding edit
  get-edit db id j f = get-store_outcome db id j (f (e.get db id))

  get-put_some :
      (db : Db) (k j : Text) (o : Option Row)
      → e.get (put_some e db k o) j ≡ (if same k j then or_else o (e.get db j) else e.get db j)
  get-put_some db k j none = ground arith
  get-put_some db k j (some r) = e.get-put db k j r

  sweep_step :
      (start : Db) (f : Row → Option Row) (db : Db) (k : Text) (ids : List Text) (j : Text)
      → (if includes j ids
          then or_else
              (read_by e (e.get start j) f)
              (e.get (put_some e db k (read_by e (e.get start k) f)) j)
          else e.get (put_some e db k (read_by e (e.get start k) f)) j)
        ≡ (if includes j (k ∷ ids)
            then or_else (read_by e (e.get start j) f) (e.get db j)
            else e.get db j)
  unfolding includes
  sweep_step start f db k ids j =
      ground (arith, get-put_some db k j (read_by e (e.get start k) f), same_iff k j, same_iff j k)

  -- A sweep acts on each row that it was given as `f` says of the row before the loop.
  pub get-sweep_ids :
      (start : Db) (f : Row → Option Row) (db : Db) (ids : List Text) (j : Text)
      → e.get (sweep e start f db ids) j ≡ (
          if includes j ids then or_else (read_by e (e.get start j) f) (e.get db j) else e.get db j)
  unfolding sweep includes
  get-sweep_ids start f db [] j = refl
  get-sweep_ids start f db (k ∷ ids) j =
      get-sweep_ids start f (put_some e db k (read_by e (e.get start k) f)) ids j
      ∙ sweep_step start f db k ids j

  pub get-sweep :
      (db : Db) (f : Row → Option Row) (j : Text)
      → e.get (sweep e db f db (e.ids db)) j ≡ or_else (read_by e (e.get db j) f) (e.get db j)
  get-sweep db f j = get-sweep_ids db f db (e.ids db) j ∙ ground (arith, e.includes-ids db j)

  select_step :
      (db : Db) (p : Row → Bool) (k : Text) (ids : List Text) (j : Text)
      → lookup j (select e db p ids) ≡ (if includes j ids then kept_by p (e.get db j) else none)
      → lookup j (keep_if e p k (e.get db k) (select e db p ids))
        ≡ (if includes j (k ∷ ids) then kept_by p (e.get db j) else none)
  unfolding includes lookup
  select_step db p k ids j h = ground (arith, h, same_iff k j, same_iff j k)

  -- A query finds exactly the rows that pass.
  pub lookup-select :
      (db : Db) (p : Row → Bool) (ids : List Text) (j : Text)
      → lookup j (select e db p ids) ≡ (if includes j ids then kept_by p (e.get db j) else none)
  unfolding select includes lookup
  lookup-select db p [] j = refl
  lookup-select db p (k ∷ ids) j = select_step db p k ids j (lookup-select db p ids j)

  pub lookup-query :
      (db : Db) (p : Row → Bool) (j : Text)
      → lookup j (select e db p (e.ids db)) ≡ kept_by p (e.get db j)
  lookup-query db p j = lookup-select db p (e.ids db) j ∙ ground (arith, e.includes-ids db j)

-- A list of ids and rows keeps the engine's promise.
abbrev pub ids_of : {V : Type 0} → List (Text × V) → List Text
ids_of [] = []
ids_of ((k, v) ∷ rows) = k ∷ ids_of rows

pub includes-ids_of :
    {V : Type 0} (rows : List (Text × V)) (k : Text)
    → includes k (ids_of rows) ≡ is_some (lookup k rows)
unfolding includes lookup
includes-ids_of [] k = refl
includes-ids_of ((i, v) ∷ rows) k =
    ground (arith, includes-ids_of rows k, same_iff k i, same_iff i k)

abbrev pub list_engine : {V : Type 0} → Engine V (List (Text × V))
list_engine = record {
  get = λ rows k. lookup k rows;
  put = λ rows k v. insert k v rows;
  ids = ids_of;
  get-put = λ rows k j v. lookup-insert k j v rows;
  includes-ids = includes-ids_of;
}
