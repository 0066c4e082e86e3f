-- ===== src/Planning/Apart/Removal.antt =====
-- Removing sessions and pricing one keep the sessions apart.
use Prim.Native.String.{String}
use taco_backend.Common.{
  ℕ, Option, none, some, List, [], ◌∷◌, if◌then◌else◌, is_some, Option-cases, inl, inr, Bool-cases,
}
use taco_backend.Common.Int.{ℤ}
use taco_backend.Exec.{
  After-read, After-transaction, After-bind, After-map, transaction, pure, refuse_if, ◌>>=◌,
}
use taco_backend.Store.{Row, Table, find_by_id, remove}
use taco_backend.Schedule.Entity.{ClassSession}
use taco_backend.Schedule.Participants.{ResolveIds}
use taco_backend.Schedule.Accounting.Projections.{Impact}
use taco_backend.Payouts.Rows.{AuditEntity, AuditAction}
use taco_backend.Planning.{Calendar, found, session_not_found, bad_amount, changed_meanwhile}
use taco_backend.Planning.Removal.{
  RemoveOptions, remove_session_row, finish_removal, remove_dependents, remove_one, push_removed,
  remove_each, tidy, correlation_of, removed_answer, finish_removals, removal_writes,
  removal_checks, removal_locked, remove_session,
}
use taco_backend.Planning.Pay.{
  with_pay_amount, set_pay_amount, pay_checks, pay_writes, pay_locked, log_pay, write_pay_amount,
  is_negative, amount_of, set_session_pay_amount,
}
use taco_backend.Planning.Apart.{IsClear, IsDisjoint}
use taco_backend.Planning.Apart.Writes.{
  remove-IsDisjoint, update_same-IsDisjoint, IsDisjoint-IsPlaced,
}
use taco_backend.Planning.Frame.{After-audit_log, After-remove_dependents, After-tidy}
use taco_backend.Planning.Apart.{IsClear-IsFramed}

remove_one-IsClear :
    (now : ℕ) (actor : Option ℕ) (why : Option String) (i : ℕ) (c : Calendar)
    → IsClear c
    → IsClear (remove_one now actor why i c).1
unfolding remove_one
remove_one-IsClear now actor why i c v =
    let r = remove_session_row now actor i c in
    let b = (remove now actor i c.tables.sessions).0 in
    let v1 = remove-IsDisjoint now i c.tables.sessions actor v in
    After-bind IsClear r.1 (remove_dependents now actor i) (λ _. finish_removal b actor i why)
      (After-remove_dependents IsClear IsClear-IsFramed now actor i r.1 v1)
      λ _ v2.
        After-audit_log IsClear IsClear-IsFramed (if b then actor else none)
          AuditEntity.class_sessions i AuditAction.delete why (remove_dependents now actor i r.1).1
          v2

remove_each-IsClear :
    (now : ℕ) (actor : Option ℕ) (why : Option String) (ss : List (Row ClassSession)) (c : Calendar)
    → IsClear c
    → IsClear (remove_each now actor why ss c).1
unfolding remove_each
remove_each-IsClear now actor why [] c v = v
remove_each-IsClear now actor why (s ∷ ss) c v =
    After-bind IsClear c (remove_one now actor why s.id)
      (λ deleted c1.
        ((remove_each now actor why ss) >>= λ rest. pure (push_removed deleted s.id rest)) c1)
      (remove_one-IsClear now actor why s.id c v)
      λ deleted v1.
        After-map IsClear (remove_one now actor why s.id c).1 (remove_each now actor why ss)
          (push_removed deleted s.id)
          (remove_each-IsClear now actor why ss (remove_one now actor why s.id c).1 v1)

-- `remove` keeps the sessions apart.
pub remove_session-IsClear :
    (resolve : ResolveIds) (digest : List ℕ → Impact → ℕ) (now : ℕ) (actor : Option ℕ)
    (why : String) (i : ℕ) (opts : RemoveOptions) (c : Calendar)
    → IsClear c
    → IsClear (remove_session resolve digest now actor why i opts c).1
unfolding remove_session
remove_session-IsClear resolve digest now actor why i opts c v =
    let locked = removal_locked resolve digest now actor why i opts in
    After-read IsClear c (λ c. found (find_by_id i c.tables.sessions) session_not_found)
      (λ _. transaction locked) v
      λ _ _. After-transaction IsClear c locked v (
        After-read IsClear c (removal_checks resolve digest i opts)
          (removal_writes now actor why i opts) v
          λ plan _.
            let note = correlation_of why plan.before in
            let c1 = (remove_each now actor note plan.targets c).1 in
            After-bind IsClear c (remove_each now actor note plan.targets)
              (finish_removals now actor why i opts plan)
              (remove_each-IsClear now actor note plan.targets c v)
              λ ids v1.
                After-map IsClear c1 (tidy now actor note opts.scope plan.series)
                  (λ _. removed_answer i plan ids)
                  (After-tidy IsClear IsClear-IsFramed now actor note opts.scope plan.series c1 v1))

set_pay_amount-IsDisjoint :
    (now i : ℕ) (amount : Option ℕ) (t : Table ClassSession)
    → IsDisjoint t
    → IsDisjoint (set_pay_amount now i amount t).1
unfolding set_pay_amount
set_pay_amount-IsDisjoint now i amount t v = elim (Option-cases (find_by_id i t)) [
  | inl e ↦ rw (set_pay_amount, e) v
  | inr (s, e) ↦ elim (Bool-cases (is_some s.val.payout_id)) [
    | inl e' ↦ rw (set_pay_amount, e, e') v
    | inr e' ↦
        rw (set_pay_amount, e, e')
          (update_same-IsDisjoint now i t (with_pay_amount amount) s e
            (IsDisjoint-IsPlaced i t s v e) (λ u h. h) v)
  ]
]

-- `setSessionPayAmount` keeps the sessions apart.
pub set_session_pay_amount-IsClear :
    (now : ℕ) (actor : Option ℕ) (i : ℕ) (amount : Option ℤ) (c : Calendar)
    → IsClear c
    → IsClear (set_session_pay_amount now actor i amount c).1
unfolding set_session_pay_amount
set_session_pay_amount-IsClear now actor i amount c v =
    let locked = pay_locked now actor i (amount_of amount) in
    After-read IsClear c (λ _. refuse_if (is_negative amount) bad_amount) (λ _. transaction locked)
      v
      λ _ _. After-transaction IsClear c locked v (
        After-read IsClear c (pay_checks i) (λ _. pay_writes now actor i (amount_of amount)) v
          λ s _.
            let w = write_pay_amount now i (amount_of amount) c in
            let v1 = set_pay_amount-IsDisjoint now i (amount_of amount) c.tables.sessions v in
            After-read IsClear w.1
              (λ _.
                found (set_pay_amount now i (amount_of amount) c.tables.sessions).0
                  changed_meanwhile)
              (log_pay actor i) v1
              λ row _.
                After-audit_log IsClear IsClear-IsFramed actor AuditEntity.class_sessions i
                  AuditAction.update (some "시수 워크시트 가격 책정(TBO-64)") w.1 v1)
