-- ===== src/Store/Cells.antt =====
-- src/store/db.js: one collection of the embedded database, and the three shapes of a repository's
-- methods: edit one row, sweep all rows, list all rows. Every method is synchronous in the source, so
-- no other call comes between its read and its write.
pub mod Laws
pub mod Sums
pub mod Order
pub mod Turn
use yente.Prelude.{
  Text, ℕ, suc, ◌≡◌, Bool, Option, none, some, is_some, List, [], ◌∷◌, includes, same,
  if◌then◌else◌, Result, ok, err,
}

-- `get`, `put` and the ids that a query without a condition returns, with the engine's promise: a row
-- reads back as it was last written, and a query returns the ids that have a row.
pub record Engine (Row Db : Type 0) : Type 0 where
  pub get : Db → Text → Option Row
  pub put : Db → Text → Row → Db
  pub ids : Db → List Text
  pub get-put :
      (db : Db) (k j : Text) (r : Row)
      → get (put db k r) j ≡ (if same k j then some r else get db j)
  pub includes-ids : (db : Db) (k : Text) → includes k (ids db) ≡ is_some (get db k)

-- What a method that edits one row does: `return null`, return the row as it is, write a row, throw.
pub data Outcome (Row : Type 0) : Type 0 where
  null : Outcome Row
  kept : Row → Outcome Row
  written : Row → Outcome Row
  thrown : Outcome Row

-- What stands under the id afterwards.
abbrev pub row_after : {Row : Type 0} → Option Row → Outcome Row → Option Row
row_after old (written r) = some r
row_after old _ = old

-- The row that a method returns.
abbrev pub returned : {Row : Type 0} → Outcome Row → Option Row
returned (written r) = some r
returned (kept r) = some r
returned _ = none

module _ {Row Db : Type 0} (e : Engine Row Db) where
  abbrev pub store_outcome : Db → Text → Outcome Row → Db
  store_outcome db id (written r) = e.put db id r
  store_outcome db id _ = db

  -- Read the row, decide, write.
  unfoldable pub edit : Db → Text → (Option Row → Outcome Row) → Db
  edit db id f = store_outcome db id (f (e.get db id))

  abbrev pub put_some : Db → Text → Option Row → Db
  put_some db id none = db
  put_some db id (some r) = e.put db id r

  abbrev pub read_by : Option Row → (Row → Option Row) → Option Row
  read_by none f = none
  read_by (some r) f = f r

  -- `for (const row of rows) { if (...) continue; put(row._id, ...) }`, the rows being read from
  -- `start` before the loop.
  unfoldable pub sweep : Db → (Row → Option Row) → Db → List Text → Db
  sweep start f db [] = db
  sweep start f db (id ∷ ids) = sweep start f (put_some db id (read_by (e.get start id) f)) ids

  abbrev pub one_if : Option Row → ℕ → ℕ
  one_if none n = n
  one_if (some r) n = suc n

  -- How often the loop writes.
  unfoldable pub hits : Db → (Row → Option Row) → List Text → ℕ
  hits start f [] = 0
  hits start f (id ∷ ids) = one_if (read_by (e.get start id) f) (hits start f ids)

  abbrev pub keep_if : (Row → Bool) → Text → Option Row → List (Text × Row) → List (Text × Row)
  keep_if p id none rest = rest
  keep_if p id (some r) rest = if p r then (id, r) ∷ rest else rest

  -- The rows of a query with a condition.
  unfoldable pub select : Db → (Row → Bool) → List Text → List (Text × Row)
  select db p [] = []
  select db p (id ∷ ids) = let rest = select db p ids in keep_if p id (e.get db id) rest
