-- ===== src/Payouts/Accounting.antt =====
-- src/modules/payouts/accounting-integrity.ts: the checker of attendance, reports, payouts and the ledger
-- together. An issue keeps its code and the row that it is about; the message texts are left out.
pub mod Ledger
use taco_backend.Common.{
  ℕ, ◌+◌, Bool, true, false, not, ◌&&◌, ◌||◌, Option, none, some, List, [], ◌∷◌, ◌++◌, ◌==◌,
  if◌then◌else◌, is_id, is_some, is_none, is_empty, get_or, holds, map_option, filter, find_last,
  flat_map, sum_by, length, any, elem,
}
use taco_backend.Store.{Row}
use taco_backend.Schedule.Entity.{ClassSession}
use taco_backend.Schedule.Participants.{
  ResolveIds, ParticipantEnrollment, student_belongs_to_session,
}
use taco_backend.Payouts.Rows.{Payout, PayoutLine, Transaction, is_paid_status, is_rejected}
use taco_backend.Payouts.Integrity.{is_out_of, is_back_of}

pub data AccountingCode : Type 0 where
  attendance_orphan_session attendance_orphan_student : AccountingCode
  attendance_duplicate attendance_outside_cohort : AccountingCode
  report_orphan_session report_orphan_student report_duplicate : AccountingCode
  report_instructor_mismatch report_outside_cohort : AccountingCode
  payout_duplicate_line payout_duplicate_session payout_line_orphan_session : AccountingCode
  payout_backref_mismatch payout_total_mismatch payout_effective_amount_mismatch : AccountingCode
  rejected_payout_has_links payout_tx_mismatch reversed_payout_bad_status : AccountingCode
  payout_reversal_tx_mismatch payout_stray_reversal_tx session_orphan_payout : AccountingCode

pub record AccountingIssue : Type 0 where
  pub code : AccountingCode
  pub entity_id : ℕ

-- a row of attendance or of a report, which is about one student in one session
pub record StudentRow : Type 0 where
  pub row_id : ℕ
  pub session_id : ℕ
  pub student_id : ℕ

pub record ReportRow : Type 0 where
  pub about : StudentRow
  pub instructor_id : ℕ

pub record AccountingSnapshot : Type 0 where
  pub sessions : List (Row ClassSession)
  pub attendance : List StudentRow
  pub reports : List ReportRow
  pub payouts : List (Row Payout)
  pub transactions : List (Row Transaction)
  pub students : List ℕ
  pub enrollments : List ParticipantEnrollment

abbrev pub flag : Bool → AccountingCode → ℕ → List AccountingIssue
flag b code i = if b then record { code = code; entity_id = i } ∷ [] else []

abbrev pub session_of : AccountingSnapshot → ℕ → Option (Row ClassSession)
session_of s n = find_last (λ r. r.id == n) s.sessions

-- whether the pair of the session and the student was seen before
abbrev pub seen_pair : StudentRow → List StudentRow → Bool
seen_pair r seen = any (λ o. (o.session_id == r.session_id) && (o.student_id == r.student_id)) seen

-- the line of a session that comes a second time, or that belongs to another payout as well
abbrev pub claimed_by : ℕ → List (ℕ × ℕ) → Option ℕ
claimed_by n [] = none
claimed_by n ((m, k) ∷ claimed) = if m == n then some k else claimed_by n claimed

abbrev pub other_claim : ℕ → Option ℕ → Bool
other_claim k none = false
other_claim k (some prior) = not (prior == k)

abbrev pub amount_at : List (Row Transaction) → Option ℕ
amount_at [] = none
amount_at (t ∷ ts) = some t.val.amount

abbrev pub same_amount : Option ℕ → Option ℕ → Bool
same_amount none none = true
same_amount (some a) (some b) = a == b
same_amount _ _ = false

abbrev pub payments_of : AccountingSnapshot → Row Payout → List (Row Transaction)
payments_of s p = filter (is_out_of p.id) s.transactions

abbrev pub reversals_of : AccountingSnapshot → Row Payout → List (Row Transaction)
reversals_of s p = filter (is_back_of p.id) s.transactions

abbrev pub payment_issues : AccountingSnapshot → Row Payout → List AccountingIssue
payment_issues s p =
    let tx = payments_of s p in
    flag
      (is_paid_status p.val.status
        && (not (length tx == 1) || not (same_amount (amount_at tx) (some p.val.amount))))
      payout_tx_mismatch p.id

abbrev pub reversal_issues : AccountingSnapshot → Row Payout → List AccountingIssue
reversal_issues s p =
    let out = payments_of s p in
    let back = reversals_of s p in
    if is_some p.val.reversed_at
    then flag (not (is_rejected p.val.status)) reversed_payout_bad_status p.id
      ++ flag
          (not (length out == 1)
            || (not (length back == 1) || not (same_amount (amount_at out) (amount_at back))))
          payout_reversal_tx_mismatch p.id
    else flag (not (is_empty back)) payout_stray_reversal_tx p.id

unfoldable pub tx_issues : AccountingSnapshot → Row Payout → List AccountingIssue
tx_issues s p = payment_issues s p ++ reversal_issues s p

abbrev pub sum_issues : AccountingSnapshot → Row Payout → List AccountingIssue
sum_issues s p =
    flag
      (not (p.val.session_count == length p.val.lines)
        || (not (p.val.total_minutes == sum_by (λ l. l.duration_minutes) p.val.lines)
            || not (p.val.computed_amount == sum_by (λ l. l.amount) p.val.lines)))
      payout_total_mismatch p.id
    ++ (flag (not (p.val.amount == get_or p.val.adjusted_amount p.val.computed_amount))
          payout_effective_amount_mismatch p.id
        ++ flag
            (is_rejected p.val.status
              && any (λ (r : Row ClassSession). is_id p.id r.val.payout_id) s.sessions)
            rejected_payout_has_links p.id)

-- the issues of one line, and the sessions that payouts claim after it
abbrev pub link_issues : AccountingSnapshot → Row Payout → PayoutLine → List AccountingIssue
link_issues s p l = elim (session_of s l.session_id) [
  | none ↦ flag true payout_line_orphan_session p.id
  | some r ↦
      flag (not (is_rejected p.val.status) && not (is_id p.id r.val.payout_id))
        payout_backref_mismatch p.id
]

abbrev pub claim_line : Row Payout → PayoutLine → List (ℕ × ℕ) → List (ℕ × ℕ)
claim_line p l claimed =
    if is_rejected p.val.status then claimed else (l.session_id, p.id) ∷ claimed

unfoldable pub lines_issues :
    AccountingSnapshot
    → Row Payout
    → List ℕ
    → List (ℕ × ℕ)
    → List PayoutLine
    → List AccountingIssue × List (ℕ × ℕ)
lines_issues s p seen claimed [] = ([], claimed)
lines_issues s p seen claimed (l ∷ ls) =
    let here =
      flag (elem l.session_id seen) payout_duplicate_line p.id
      ++ (flag
            (not (is_rejected p.val.status) && other_claim p.id (claimed_by l.session_id claimed))
            payout_duplicate_session p.id
          ++ link_issues s p l) in
    let (rest, claimed') = lines_issues s p (l.session_id ∷ seen) (claim_line p l claimed) ls in
    (here ++ rest, claimed')

unfoldable pub payouts_issues :
    AccountingSnapshot → List (ℕ × ℕ) → List (Row Payout) → List AccountingIssue
unfolding lines_issues tx_issues
payouts_issues s claimed [] = []
payouts_issues s claimed (p ∷ ps) =
    let (of_lines, claimed') = lines_issues s p [] claimed p.val.lines in
    of_lines ++ (sum_issues s p ++ (tx_issues s p ++ payouts_issues s claimed' ps))

abbrev pub orphan_issues : AccountingSnapshot → Row ClassSession → List AccountingIssue
orphan_issues s r =
    flag (holds (λ k. not (any (λ p. p.id == k) s.payouts)) r.val.payout_id) session_orphan_payout
      r.id

module _ (resolve : ResolveIds) where
  abbrev pub outside_cohort : AccountingSnapshot → StudentRow → Bool
  outside_cohort s r =
      holds (λ o. not (student_belongs_to_session resolve o.val r.student_id s.enrollments))
        (session_of s r.session_id)

  unfoldable pub attendance_issues :
      AccountingSnapshot → List StudentRow → List StudentRow → List AccountingIssue
  attendance_issues s seen [] = []
  attendance_issues s seen (r ∷ rs) =
      flag (is_none (session_of s r.session_id)) attendance_orphan_session r.row_id
      ++ (flag (not (elem r.student_id s.students)) attendance_orphan_student r.row_id
          ++ (flag (seen_pair r seen) attendance_duplicate r.row_id
              ++ (flag (outside_cohort s r) attendance_outside_cohort r.row_id
                  ++ attendance_issues s (r ∷ seen) rs)))

  unfoldable pub reports_issues :
      AccountingSnapshot → List StudentRow → List ReportRow → List AccountingIssue
  reports_issues s seen [] = []
  reports_issues s seen (q ∷ qs) =
      let r = q.about in
      flag (is_none (session_of s r.session_id)) report_orphan_session r.row_id
      ++ (flag (not (elem r.student_id s.students)) report_orphan_student r.row_id
          ++ (flag (seen_pair r seen) report_duplicate r.row_id
              ++ (flag
                    (holds (λ o. not (is_id q.instructor_id o.val.instructor_id))
                      (session_of s r.session_id))
                    report_instructor_mismatch r.row_id
                  ++ (flag (outside_cohort s r) report_outside_cohort r.row_id
                      ++ reports_issues s (r ∷ seen) qs))))

  unfoldable pub check_accounting_integrity : AccountingSnapshot → List AccountingIssue
  unfolding attendance_issues reports_issues payouts_issues
  check_accounting_integrity s =
      attendance_issues s [] s.attendance
      ++ (reports_issues s [] s.reports
          ++ (payouts_issues s [] s.payouts ++ flat_map (orphan_issues s) s.sessions))
