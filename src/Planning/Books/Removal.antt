-- ===== src/Planning/Books/Removal.antt =====
-- Removals of sessions leave the books of the payouts alone: a session of a payout, or a paid one, is not
-- removed.
use Prim.Native.String.{String}
use taco_backend.Common.{
  ℕ, ◌≡◌, ap, ◌∙◌, subst, false, Option, none, some, List, [], ◌∷◌, any, All, if◌then◌else◌, arith,
  Option-cases, inl, inr,
}
use taco_backend.Exec.{
  ok, After, After-read, After-transaction, After-bind, After-map, transaction, and_then-ok,
  ok-injective, refuse_if-ok, pure, ◌>>=◌,
}
use taco_backend.Store.{Row, Table, find_by_id, remove}
use taco_backend.Store.WellFormed.{IsWellFormed}
use taco_backend.Schedule.Entity.{ClassSession}
use taco_backend.Schedule.SeriesScope.{SeriesScope, SeriesScopeMember}
use taco_backend.Schedule.Participants.{ResolveIds}
use taco_backend.Schedule.Accounting.{is_payout_locked}
use taco_backend.Schedule.Accounting.Projections.{Impact}
use taco_backend.Payouts.Rows.{Db, AuditEntity, AuditAction}
use taco_backend.Planning.{Calendar, found, found-ok, session_not_found}
use taco_backend.Planning.Removal.{
  rows_of, companions_of, RemoveOptions, RemovalPlan, finish_removal, remove_dependents, remove_one,
  push_removed, remove_each, tidy, correlation_of, removed_answer, finish_removals, removal_writes,
  removal_plan, removal_checks, removal_locked, remove_session,
}
use taco_backend.Planning.Apart.Assignment.{find_by_id-id}
use taco_backend.Planning.Frame.{After-audit_log, After-remove_dependents, After-tidy}
use taco_backend.Planning.Books.{
  KeepsBooks, KeepsBooks-refl, KeepsBooks-sessions, KeepsBooks-IsFramed, booked_in, flag_in,
  SameColumns-remove,
}

-- the session is linked to no payout and not paid
abbrev IsFree : Table ClassSession → Row ClassSession → Type 0
IsFree t s = (booked_in s.id t ≡ none) × (flag_in s.id t ≡ false)

module _ (db : Db) where
  remove_one-KeepsBooks :
      (now : ℕ) (actor : Option ℕ) (why : Option String) (s : Row ClassSession) (c : Calendar)
      → IsFree db.sessions s
      → KeepsBooks db c
      → After (KeepsBooks db) (remove_one now actor why s.id) c
  unfolding remove_one
  remove_one-KeepsBooks now actor why s c (free, unpaid) w =
      let (deleted, t) = remove now actor s.id c.tables.sessions in
      let c1 = record c { tables = record c.tables { sessions = t } } in
      let w1 : KeepsBooks db c1 = KeepsBooks-sessions db c t w (
        SameColumns-remove now s.id c.tables.sessions actor (w.same_links s.id ∙ free)
          (w.same_flags s.id ∙ unpaid)) in
      After-bind (KeepsBooks db) c1 (remove_dependents now actor s.id)
        (λ _. finish_removal deleted actor s.id why)
        (After-remove_dependents (KeepsBooks db) (KeepsBooks-IsFramed db) now actor s.id c1 w1)
        λ _ w2.
          After-audit_log (KeepsBooks db) (KeepsBooks-IsFramed db) (if deleted then actor else none)
            AuditEntity.class_sessions s.id AuditAction.delete why
            (remove_dependents now actor s.id c1).1 w2

  remove_each-KeepsBooks :
      (now : ℕ) (actor : Option ℕ) (why : Option String) (ss : List (Row ClassSession))
      (c : Calendar)
      → All (IsFree db.sessions) ss
      → KeepsBooks db c
      → After (KeepsBooks db) (remove_each now actor why ss) c
  unfolding remove_each
  remove_each-KeepsBooks now actor why [] c free w = w
  remove_each-KeepsBooks now actor why (s ∷ ss) c free w =
      After-bind (KeepsBooks db) c (remove_one now actor why s.id)
        (λ deleted c1.
          ((remove_each now actor why ss) >>= λ rest. pure (push_removed deleted s.id rest)) c1)
        (remove_one-KeepsBooks now actor why s c free.0 w)
        λ deleted w1.
          After-map (KeepsBooks db) (remove_one now actor why s.id c).1
            (remove_each now actor why ss) (push_removed deleted s.id)
            (remove_each-KeepsBooks now actor why ss (remove_one now actor why s.id c).1 free.1 w1)

-- the rows that were looked up for the scope are those of their ids
rows_of-found :
    (t : Table ClassSession) (ms : List SeriesScopeMember)
    → All (λ s. find_by_id s.id t ≡ some s) (rows_of t ms)
rows_of-found t [] = tt
rows_of-found t (m ∷ ms) = elim (Option-cases (find_by_id m.id t)) [
  | inl e ↦ rw (rows_of, e) (rows_of-found t ms)
  | inr (s, e) ↦
      rw (rows_of, e) (ap (λ i. find_by_id i t) (find_by_id-id m.id t s e) ∙ e, rows_of-found t ms)
]

companions_of-found :
    (c : Calendar) (s : Row ClassSession) (scope : SeriesScope)
    → All (λ u. find_by_id u.id c.tables.sessions ≡ some u) (companions_of c s scope)
unfolding companions_of
companions_of-found c s scope = elim (Option-cases s.val.series_id) [
  | inl e ↦ rw (companions_of, e) tt
  | inr (i, e) ↦ rw (companions_of, e) (rows_of-found c.tables.sessions _)
]

found-IsFree :
    (t : Table ClassSession) (s : Row ClassSession)
    → find_by_id s.id t ≡ some s
    → is_payout_locked s.val ≡ false
    → IsFree t s
unfolding is_payout_locked
found-IsFree t s e h = (ground arith, ground arith)

unlocked-IsFree :
    (t : Table ClassSession) (ss : List (Row ClassSession))
    → All (λ u. find_by_id u.id t ≡ some u) ss
    → any (λ (u : Row ClassSession). is_payout_locked u.val) ss ≡ false
    → All (IsFree t) ss
unlocked-IsFree t [] e h = tt
unlocked-IsFree t (s ∷ ss) e h =
    (found-IsFree t s e.0 (ground arith), unlocked-IsFree t ss e.1 (ground arith))

module _ (resolve : ResolveIds) (digest : List ℕ → Impact → ℕ) where
  -- what the checks let through are sessions that no payout holds
  removal_checks-IsFree :
      (i : ℕ) (opts : RemoveOptions) (c : Calendar) (plan : RemovalPlan)
      → removal_checks resolve digest i opts c ≡ ok plan
      → All (IsFree c.tables.sessions) plan.targets
  unfolding removal_checks
  removal_checks-IsFree i opts c plan h =
      let (s, there, h1) = and_then-ok _ _ plan h in
      let (_, _, h2) = and_then-ok _ _ plan h1 in
      let (_, _, h3) = and_then-ok _ _ plan h2 in
      let (_, unlocked, h4) = and_then-ok _ _ plan h3 in
      let (_, _, h5) = and_then-ok _ _ plan h4 in
      let e = found-ok (find_by_id i c.tables.sessions) session_not_found s there in
      let here =
        ap (λ k. find_by_id k c.tables.sessions) (find_by_id-id i c.tables.sessions s e) ∙ e in
      subst (λ p. All (IsFree c.tables.sessions) p.targets)
        (ok-injective (removal_plan resolve digest i opts s c) plan h5)
        (unlocked-IsFree c.tables.sessions (s ∷ companions_of c s opts.scope)
          (here, companions_of-found c s opts.scope) (refuse_if-ok _ _ tt unlocked))

  pub After-remove_session :
      (now : ℕ) (actor : Option ℕ) (why : String) (i : ℕ) (opts : RemoveOptions) (c : Calendar)
      → IsWellFormed c.tables.sessions
      → After (KeepsBooks c.tables) (remove_session resolve digest now actor why i opts) c
  unfolding remove_session
  After-remove_session now actor why i opts c wf =
      let P = KeepsBooks c.tables in
      let w = KeepsBooks-refl c wf in
      let locked = removal_locked resolve digest now actor why i opts in
      After-read P c (λ c. found (find_by_id i c.tables.sessions) session_not_found)
        (λ _. transaction locked) w
        λ _ _. After-transaction P c locked w (
          After-read P c (removal_checks resolve digest i opts)
            (removal_writes now actor why i opts) w
            λ plan e.
              let note = correlation_of why plan.before in
              let c1 = (remove_each now actor note plan.targets c).1 in
              After-bind P c (remove_each now actor note plan.targets)
                (finish_removals now actor why i opts plan)
                (remove_each-KeepsBooks c.tables now actor note plan.targets c
                  (removal_checks-IsFree i opts c plan e) w)
                λ ids w1.
                  After-map P c1 (tidy now actor note opts.scope plan.series)
                    (λ _. removed_answer i plan ids)
                    (After-tidy P (KeepsBooks-IsFramed c.tables) now actor note opts.scope
                      plan.series c1 w1))
