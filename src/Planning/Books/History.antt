-- ===== src/Planning/Books/History.antt =====
-- Histories in which the payout commands of src/modules/payouts/payouts.service.ts and the calendar
-- commands of src/modules/schedule/schedule.service.ts follow one another in any order.
use Prim.Native.String.{String}
use taco_backend.Common.{ℕ, ◌≡◌, Bool, Option, some, List, []}
use taco_backend.Store.WellFormed.{IsWellFormed}
use taco_backend.Schedule.Participants.{ResolveIds}
use taco_backend.Schedule.Accounting.Projections.{Impact}
use taco_backend.Payouts.Integrity.{integrity_issues, snapshot_of}
use taco_backend.Payouts.Sound.{IsSound}
use taco_backend.Payouts.Checked.{integrity_issues-IsSound}
use taco_backend.Payouts.History.{Request, LeavesBooks, LeavesBooks-IsSound, serve, serve-IsSound}
use taco_backend.Planning.{Calendar}
use taco_backend.Planning.History.{
  CalendarRequest, creates, creates_series, removes, restores, assigns, prices, edits, marks,
  perform,
}
use taco_backend.Planning.Books.{KeepsBooks-refl}
use taco_backend.Planning.Books.Creation.{After-create, After-create_series}
use taco_backend.Planning.Books.Edits.{
  After-update_instructor_assignment, After-set_session_pay_amount, After-update_class_session,
  After-attendance_command,
}
use taco_backend.Planning.Books.Removal.{After-remove_session}

module _ (resolve : ResolveIds) (digest : List ℕ → Impact → ℕ) (is_production : Bool) where
  -- Every calendar request, whether it goes through or throws, leaves the books of the payouts alone:
  -- it writes no payout and no ledger row of one, links no session to a payout, releases and removes
  -- none that is linked, and changes no paid mark. This takes sessions whose ids are unique.
  pub perform-LeavesBooks :
      (now : ℕ) (actor : Option ℕ) (why : String) (r : CalendarRequest) (c : Calendar)
      → IsWellFormed c.tables.sessions
      → LeavesBooks c.tables (perform resolve digest is_production now actor why r c).tables
  unfolding perform
  perform-LeavesBooks now actor why (creates dto) c wf =
      After-create c.tables is_production now actor (some why) dto c (KeepsBooks-refl c wf)
  perform-LeavesBooks now actor why (creates_series dto) c wf =
      After-create_series c.tables is_production now actor dto c (KeepsBooks-refl c wf)
  perform-LeavesBooks now actor why (removes i opts) c wf =
      After-remove_session resolve digest now actor why i opts c wf
  perform-LeavesBooks now actor why (restores i) c wf = KeepsBooks-refl c wf
  perform-LeavesBooks now actor why (assigns i dto) c wf =
      After-update_instructor_assignment c.tables resolve now actor i dto c (KeepsBooks-refl c wf)
  perform-LeavesBooks now actor why (prices i amount) c wf =
      After-set_session_pay_amount c.tables now actor i amount c (KeepsBooks-refl c wf)
  perform-LeavesBooks now actor why (edits i dto opts) c wf =
      After-update_class_session c.tables resolve digest is_production now actor why i dto opts c
        (KeepsBooks-refl c wf)
  perform-LeavesBooks now actor why (marks i may_manage acknowledged hash command expected) c wf =
      After-attendance_command c.tables resolve digest is_production now actor why why may_manage i
        acknowledged hash command expected c (KeepsBooks-refl c wf)

  -- the payout commands work on the tables of the calendar
  abbrev pub settle : ℕ → Option ℕ → Request → Calendar → Calendar
  settle now actor r c = record c { tables = serve resolve now actor r c.tables }

  pub data Mixed (start : Calendar) : Calendar → Type 0 where
    begun : Mixed start start
    settled :
        {c : Calendar} (now : ℕ) (actor : Option ℕ) (r : Request)
        → Mixed start c
        → Mixed start (settle now actor r c)
    planned :
        {c : Calendar} (now : ℕ) (actor : Option ℕ) (why : String) (r : CalendarRequest)
        → Mixed start c
        → Mixed start (perform resolve digest is_production now actor why r c)
    besides : {c c' : Calendar} → Mixed start c → LeavesBooks c.tables c'.tables → Mixed start c'

  pub Mixed-IsSound : (start c : Calendar) → IsSound start.tables → Mixed start c → IsSound c.tables
  Mixed-IsSound start _ v begun = v
  Mixed-IsSound start _ v (settled {c} now actor r before) =
      serve-IsSound resolve now actor r c.tables (Mixed-IsSound start c v before)
  Mixed-IsSound start _ v (planned {c} now actor why r before) =
      let w = Mixed-IsSound start c v before in
      LeavesBooks-IsSound c.tables (perform resolve digest is_production now actor why r c).tables
        (perform-LeavesBooks now actor why r c w.sessions_wf) w
  Mixed-IsSound start _ v (besides {c} {c'} before w) =
      LeavesBooks-IsSound c.tables c'.tables w (Mixed-IsSound start c v before)

  -- After any history in which payout requests and calendar requests follow one another in any order,
  -- whether they went through or threw, with writes of other services between them that leave the
  -- payout columns and the ledger rows of payouts alone, and which starts at sound tables, the
  -- integrity checker of the repository reports no issue.
  pub Mixed-no_issues :
      (start c : Calendar)
      → IsSound start.tables
      → Mixed start c
      → integrity_issues (snapshot_of c.tables) ≡ []
  Mixed-no_issues start c v h = integrity_issues-IsSound c.tables (Mixed-IsSound start c v h)
