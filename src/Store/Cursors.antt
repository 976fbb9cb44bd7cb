-- ===== src/Store/Cursors.antt =====
-- src/store/graph.js: MailCursorRepository, how far each mailbox was read. The numbers are those of
-- the mail server; the id of a cursor's row is the digest of its
-- mailbox, a hash over a package, which is a parameter.
mod Tests
use yente.Prelude.{
  Text, ℕ, ◌≤◌, ◌≡◌, refl, sym, ap, ◌∙◌, Bool, true, false, Option, none, some, List, [], ◌∷◌, ◌++◌,
  codes, max, if◌then◌else◌, ◌==◌, arith, same, same_refl,
}
use yente.Store.Cells.{Engine}

pub record Cursor : Type 0 where
  pub mailbox : Text
  pub uid_validity : ℕ
  pub last_uid : ℕ
  pub updated_at : ℕ
  pub resynced_at : Option ℕ

pub record Batch : Type 0 where
  pub uid_validity : ℕ
  pub last_uid : ℕ
  pub at : ℕ

abbrev fresh_cursor : Text → Batch → Cursor
fresh_cursor mailbox b = record {
  mailbox = mailbox;
  uid_validity = b.uid_validity;
  last_uid = b.last_uid;
  updated_at = b.at;
  resynced_at = some b.at;
}

abbrev moved_cursor : Text → Cursor → Batch → Cursor
moved_cursor mailbox held b = record {
  mailbox = mailbox;
  uid_validity = b.uid_validity;
  last_uid = max held.last_uid b.last_uid;
  updated_at = b.at;
  resynced_at = held.resynced_at;
}

-- What `advance` writes over the cursor that is held.
unfoldable pub advanced : Text → Option Cursor → Batch → Cursor
advanced mailbox none b = fresh_cursor mailbox b
advanced mailbox (some held) b =
    if held.uid_validity == b.uid_validity
    then moved_cursor mailbox held b
    else fresh_cursor mailbox b

abbrev pub largest : ℕ → List Batch → ℕ
largest n [] = n
largest n (b ∷ rest) = largest (max n b.last_uid) rest

unfoldable pub AllOf : ℕ → List Batch → Type 0
AllOf validity [] = Unit {0}
AllOf validity (b ∷ rest) = (b.uid_validity ≡ validity) × AllOf validity rest

unfoldable pub advance_over : Text → Cursor → List Batch → Cursor
advance_over mailbox held [] = held
advance_over mailbox held (b ∷ rest) = advance_over mailbox (advanced mailbox (some held) b) rest

pub record IsFurther (uid : ℕ) (held c : Cursor) : Type 0 where
  pub reaches : c.last_uid ≡ uid
  pub never_back : held.last_uid ≤ c.last_uid
  pub same_epoch : c.uid_validity ≡ held.uid_validity
  pub same_resync : c.resynced_at ≡ held.resynced_at

advanced_in_epoch :
    (mailbox : Text) (held : Cursor) (b : Batch)
    → b.uid_validity ≡ held.uid_validity
    → IsFurther (max held.last_uid b.last_uid) held (advanced mailbox (some held) b)
unfolding advanced
advanced_in_epoch mailbox held b e = ground arith

advance_over-IsFurther :
    (mailbox : Text) (held : Cursor) (bs : List Batch)
    → AllOf held.uid_validity bs
    → IsFurther (largest held.last_uid bs) held (advance_over mailbox held bs)
unfolding AllOf advance_over
advance_over-IsFurther mailbox held [] h = ground arith
advance_over-IsFurther mailbox held (b ∷ rest) (e, h) = ground (
  arith,
  advanced_in_epoch mailbox held b e,
  advance_over-IsFurther mailbox (advanced mailbox (some held) b) rest,
)

module _ {Db : Type 0} (e : Engine Cursor Db) (digest : Text → Text) where
  unfoldable pub read : Db → Text → Option Cursor
  read db mailbox = e.get db (digest mailbox)

  unfoldable pub advance : Db → Text → Batch → Db
  advance db mailbox b = e.put db (digest mailbox) (advanced mailbox (read db mailbox) b)

  unfoldable pub advance_all : Db → Text → List Batch → Db
  advance_all db mailbox [] = db
  advance_all db mailbox (b ∷ rest) = advance_all (advance db mailbox b) mailbox rest

  read-advance :
      (db : Db) (mailbox : Text) (b : Batch)
      → read (advance db mailbox b) mailbox ≡ some (advanced mailbox (read db mailbox) b)
  unfolding read advance
  read-advance db mailbox b = ground (
    arith,
    e.get-put db (digest mailbox) (digest mailbox) (advanced mailbox (e.get db (digest mailbox)) b),
    same_refl (digest mailbox),
  )

  read-advance_all :
      (db : Db) (mailbox : Text) (held : Cursor) (bs : List Batch)
      → read db mailbox ≡ some held
      → read (advance_all db mailbox bs) mailbox ≡ some (advance_over mailbox held bs)
  unfolding advance_all advance_over
  read-advance_all db mailbox held [] h = h
  read-advance_all db mailbox held (b ∷ rest) h =
      read-advance_all (advance db mailbox b) mailbox (advanced mailbox (some held) b) rest
        (read-advance db mailbox b ∙ ap (λ row. some (advanced mailbox row b)) h)

  -- Batches of the epoch of the stored cursor, in any order and repeated as they may be, leave it at the
  -- largest uid among them and its own, so it never goes back, and record no resync.
  pub read-advance_all_in_epoch :
      (db : Db) (mailbox : Text) (held : Cursor) (bs : List Batch)
      → read db mailbox ≡ some held
      → AllOf held.uid_validity bs
      → (c : Cursor) × (read (advance_all db mailbox bs) mailbox ≡ some c)
        × IsFurther (largest held.last_uid bs) held c
  read-advance_all_in_epoch db mailbox held bs h epoch = (
    advance_over mailbox held bs,
    read-advance_all db mailbox held bs h,
    advance_over-IsFurther mailbox held bs epoch,
  )
