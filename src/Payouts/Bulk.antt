-- ===== src/Payouts/Bulk.antt =====
-- That a failing target of a bulk settlement (src/modules/payouts/payouts.service.ts) leaves no trace.
use taco_backend.Common.{ℕ, ◌≡◌, Option, List, [], ◌++◌, map}
use taco_backend.Store.{Row}
use taco_backend.Time.{IsoDate}
use taco_backend.Schedule.Participants.{ResolveIds}
use taco_backend.Payouts.Rows.{Payout, Db}
use taco_backend.Payouts.Commands.{BulkResult, generate_each}

abbrev pub nothing_yet : BulkResult
nothing_yet = record { generated = []; skipped = []; failed = [] }

-- the targets for which a payout was generated
abbrev pub settled_ids : List (ℕ × Row Payout) → List ℕ
settled_ids ps = map (λ p. p.0) ps

module _ (resolve : ResolveIds) (now : ℕ) (actor : Option ℕ) (from to : Option IsoDate) where
  abbrev each : List ℕ → BulkResult → Db → BulkResult × Db
  each is r db = generate_each resolve now actor from to is r db

  abbrev only : List (ℕ × Row Payout) → BulkResult
  only ps = record { generated = ps; skipped = []; failed = [] }

  -- `ps` is what a run adds, and running for its targets alone adds the same
  abbrev Splits : List ℕ → BulkResult → Db → Type 0
  Splits is r db =
      (ps : List (ℕ × Row Payout)) × ((each is r db).0.generated ≡ r.generated ++ ps)
      × ((done : List (ℕ × Row Payout))
          → each (settled_ids ps) (only done) db ≡ (only (done ++ ps), (each is r db).1))
