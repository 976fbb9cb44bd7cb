-- ===== src/Store/Jobs/Line.antt =====
-- The order in which ready jobs are taken.
use yente.Prelude.{Text, ℕ, ◌≡◌, ◌⊎◌, true, false, Option, none, some, List}
use yente.Store.Cells.{Engine, written}
use yente.Store.Jobs.{Job, running, start, is_ready}
use yente.Store.Cells.Turn.{HasTurn}
use yente.Store.Jobs.Backlog.{due_time}

module _ {Db : Type 0} (e : Engine Job Db) where
  -- A row of the collection that a start at any time claims, due by now.
  pub record IsInLine (db : Db) (now : ℕ) (a : Text × Job) : Type 0 where
    pub stored : e.get db a.0 ≡ some a.1
    pub due_by_now : is_ready now a.1 ≡ true
    pub startable : (at : ℕ) → (n : Job) × (start at (some a.1) ≡ written n) × (n.state ≡ running)

  -- A row that is due is taken, or finds the list full of rows that are due no later.
  abbrev pub IsServed : ℕ → ℕ → Text → Option Job → List (Text × Job) → Type 0
  IsServed limit now id none l = Unit {0}
  IsServed limit now id (some j) l = (is_ready now j ≡ false) ⊎ HasTurn due_time limit (id, j) l
