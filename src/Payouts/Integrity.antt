-- ===== src/Payouts/Integrity.antt =====
-- src/modules/payouts/payout-integrity.ts: the checker that the database script and the tests share.
-- An issue keeps its code and the row that it is about; the message texts are left out.
use taco_backend.Common.{
  ℕ, ◌+◌, Bool, true, false, not, ◌&&◌, none, some, List, [], ◌∷◌, ◌++◌, ltb, leb, ◌==◌,
  if◌then◌else◌, is_id, is_some, get_or, filter, flat_map, sum_by, count_by, find_last, sort_by,
}
use taco_backend.Store.{Row, find_all}
use taco_backend.Schedule.Entity.{ClassSession}
use taco_backend.Schedule.Participants.{add_id}
use taco_backend.Payouts.Rows.{
  Payout, PayoutLine, Transaction, Direction, incoming, outgoing, Category, instructor_payout,
  payout_reversal, Db, is_paid_status, is_rejected, has_line,
}

pub data IssueCode : Type 0 where
  payout_lines_sum_mismatch payout_amount_rule payout_paid_ledger payout_reversal_ledger : IssueCode
  payout_ledger_unexpected payout_session_link session_payout_orphan : IssueCode
  payout_period_overlap : IssueCode

pub record Issue : Type 0 where
  pub code : IssueCode
  pub entity_id : ℕ

pub record Snapshot : Type 0 where
  pub payouts : List (Row Payout)
  pub transactions : List (Row Transaction)
  pub sessions : List (Row ClassSession)

-- the active rows of the three tables
abbrev pub snapshot_of : Db → Snapshot
snapshot_of db = record {
  payouts = find_all db.payouts;
  transactions = find_all db.transactions;
  sessions = find_all db.sessions;
}

abbrev pub is_outgoing : Direction → Bool
is_outgoing outgoing = true
is_outgoing incoming = false

abbrev pub is_instructor_payout : Category → Bool
is_instructor_payout instructor_payout = true
is_instructor_payout _ = false

abbrev pub is_reversal : Category → Bool
is_reversal payout_reversal = true
is_reversal _ = false

-- a payment to the instructor of payout `k`, and its compensation
abbrev pub is_out_of : ℕ → Row Transaction → Bool
is_out_of k r =
    is_id k r.val.payout_id && (is_outgoing r.val.direction && is_instructor_payout r.val.category)

abbrev pub is_back_of : ℕ → Row Transaction → Bool
is_back_of k r =
    is_id k r.val.payout_id && (not (is_outgoing r.val.direction) && is_reversal r.val.category)

abbrev pub issue_if : Bool → IssueCode → ℕ → List Issue
issue_if b code k = if b then record { code = code; entity_id = k } ∷ [] else []

abbrev pub is_active_payout : Row Payout → Bool
is_active_payout p = not (is_rejected p.val.status)

-- (a) and (b): the lines add up, and the amount is the adjusted one or else the computed one
abbrev pub amount_issues : Row Payout → List Issue
amount_issues p =
    issue_if (not (sum_by (λ l. l.amount) p.val.lines == p.val.computed_amount))
      payout_lines_sum_mismatch p.id
    ++ issue_if (not (p.val.amount == get_or p.val.adjusted_amount p.val.computed_amount))
        payout_amount_rule p.id

-- (c) and (d): a paid payout has one payment, a reversed one a payment and its compensation, and
-- any other has neither
abbrev pub ledger_issues : Row Payout → ℕ → ℕ → List Issue
ledger_issues p outs backs =
    if is_paid_status p.val.status
    then issue_if (not (outs == 1)) payout_paid_ledger p.id
      ++ issue_if (not (backs == 0)) payout_paid_ledger p.id
    else if is_some p.val.reversed_at
    then issue_if (not (outs == 1)) payout_reversal_ledger p.id
      ++ issue_if (not (backs == 1)) payout_reversal_ledger p.id
    else issue_if (ltb 0 (outs + backs)) payout_ledger_unexpected p.id

-- (e-1): each line of an active payout has a session that refers back to it
abbrev pub line_issue : Snapshot → Row Payout → PayoutLine → List Issue
line_issue s p l = elim (find_last (λ r. r.id == l.session_id) s.sessions) [
  | none ↦ record { code = payout_session_link; entity_id = p.id } ∷ []
  | some r ↦ issue_if (not (is_id p.id r.val.payout_id)) payout_session_link p.id
]

abbrev pub line_issues : Snapshot → Row Payout → List Issue
line_issues s p = if is_active_payout p then flat_map (line_issue s p) p.val.lines else []

-- (e-2): a session with a payout is a line of that payout, which is active
abbrev pub session_issues : Snapshot → Row ClassSession → List Issue
session_issues s r = elim r.val.payout_id [
  | none ↦ []
  | some k ↦ elim (find_last (λ p. p.id == k) (filter is_active_payout s.payouts)) [
    | none ↦ record { code = session_payout_orphan; entity_id = r.id } ∷ []
    | some p ↦ issue_if (not (has_line r.id p.val.lines)) session_payout_orphan r.id
  ]
]

abbrev pub payout_issues : Snapshot → Row Payout → List Issue
payout_issues s p =
    amount_issues p
    ++ (ledger_issues p (count_by (is_out_of p.id) s.transactions)
          (count_by (is_back_of p.id) s.transactions)
        ++ line_issues s p)

unfoldable pub integrity_issues : Snapshot → List Issue
integrity_issues s = flat_map (payout_issues s) s.payouts ++ flat_map (session_issues s) s.sessions

-- (f): warnings about periods of one instructor that overlap
unfoldable pub instructor_ids : List ℕ → List (Row Payout) → List ℕ
instructor_ids seen [] = seen
instructor_ids seen (p ∷ ps) = instructor_ids (add_id p.val.instructor_id seen) ps

abbrev pub overlaps_after : Row Payout → List (Row Payout) → List Issue
overlaps_after prev [] = []
overlaps_after prev (cur ∷ ps) =
    issue_if (leb cur.val.period_start prev.val.period_end) payout_period_overlap cur.id
    ++ overlaps_after cur ps

abbrev pub overlaps : List (Row Payout) → List Issue
overlaps [] = []
overlaps (p ∷ ps) = overlaps_after p ps

abbrev pub by_period_start : Row Payout → Row Payout → Bool
by_period_start a b = leb a.val.period_start b.val.period_start

unfoldable pub integrity_warnings : Snapshot → List Issue
unfolding instructor_ids
integrity_warnings s =
    let active = filter is_active_payout s.payouts in
    flat_map
      (λ i. overlaps (sort_by by_period_start (filter (λ p. p.val.instructor_id == i) active)))
      (instructor_ids [] active)
