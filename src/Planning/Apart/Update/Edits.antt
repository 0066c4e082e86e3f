-- ===== src/Planning/Apart/Update/Edits.antt =====
-- The checks and the writes of an edit of one session, and that it keeps the sessions apart.
use taco_backend.Common.{ℕ, ◌≡◌, sym, ap, subst, Bool, true, false, some, List, ◌∷◌}
use taco_backend.Exec.{ok, ok-injective, and_then-ok, refuse_if-ok}
use taco_backend.Store.{Row, find_by_id}
use taco_backend.Schedule.Entity.{ClassSession}
use taco_backend.Schedule.SeriesScope.{this}
use taco_backend.Schedule.Participants.{ResolveIds}
use taco_backend.Schedule.Conflicts.{Conflict}
use taco_backend.Schedule.Conflicts.Overlap.{is_clock_or_none}
use taco_backend.Schedule.Accounting.Projections.{Impact}
use taco_backend.Planning.{Calendar, found-ok, session_not_found}
use taco_backend.Planning.Context.{SessionAccountingContext, load_fresh}
use taco_backend.Planning.Update.{UpdateSession, InternalOptions, Target}
use taco_backend.Planning.Update.Checks.{
  Accounted, accounting_allowed, update_conflicts, is_stopped, planned_targets, conflicts_allowed,
  update_checks, target_ids,
}
use taco_backend.Planning.Apart.{IsClear}
use taco_backend.Planning.Apart.Writes.{IsDisjoint-IsPlaced}
use taco_backend.Planning.Apart.Update.{IsAlone, targets_of-this, settled_targets-IsAlone}

pub accounting_allowed-ok :
    (resolve : ResolveIds) (digest : List ℕ → Impact → ℕ) (dto : UpdateSession) (c : Calendar)
    (context : SessionAccountingContext) (t : Target) (ts : List Target) (reset : List ℕ)
    (a : Accounted)
    → accounting_allowed resolve digest dto c context t ts reset ≡ ok a
    → (a.primary ≡ t) × (a.members ≡ ts)
unfolding accounting_allowed
accounting_allowed-ok resolve digest dto c context t ts reset a h =
    let (_, _, h1) = and_then-ok _ _ a h in
    let (_, _, h2) = and_then-ok _ _ a h1 in
    let (_, _, h3) = and_then-ok _ _ a h2 in
    let (_, _, h4) = and_then-ok _ _ a h3 in
    let same = ok-injective _ a h4 in
    (ap (λ x. x.primary) (sym same), ap (λ x. x.members) (sym same))

planned_targets-this :
    (resolve : ResolveIds) (now i : ℕ) (dto : UpdateSession) (opts : InternalOptions) (c : Calendar)
    (u : Target) (us : List Target) (reset : List ℕ)
    → dto.scope ≡ this
    → is_clock_or_none dto.start_time ≡ true
    → IsClear c
    → planned_targets resolve now i dto opts c ≡ ok (u, us, reset)
    → (cur : Row ClassSession) × (find_by_id i c.tables.sessions ≡ some cur) × IsAlone cur u us
unfolding planned_targets
planned_targets-this resolve now i dto opts c u us reset alone clock v h =
    let (cur, there, h1) = and_then-ok _ _ (u, us, reset) h in
    let found = found-ok (find_by_id i c.tables.sessions) session_not_found cur there in
    let (_, _, h2) = and_then-ok _ _ (u, us, reset) h1 in
    let ((t, ts), targets, h3) = and_then-ok _ _ (u, us, reset) h2 in
    let (_, _, settles) = and_then-ok _ _ (u, us, reset) h3 in
    let placed = IsDisjoint-IsPlaced i c.tables.sessions cur v found in
    (
      cur,
      found,
      settled_targets-IsAlone resolve now dto opts (load_fresh (target_ids (t ∷ ts)) c.tables) cur t
          u ts us reset settles (targets_of-this dto opts c cur t ts alone clock placed targets),
    )

pub conflicts_allowed-ok :
    (is_production : Bool) (dto : UpdateSession) (opts : InternalOptions) (c : Calendar)
    (b a : Accounted) (conflicts : List Conflict)
    → conflicts_allowed is_production dto opts c b ≡ ok (a, conflicts)
    → (b ≡ a)
      × (is_stopped is_production dto b.primary.fields
            (update_conflicts opts c (b.primary ∷ b.members))
          ≡ false)
unfolding conflicts_allowed
conflicts_allowed-ok is_production dto opts c b a conflicts h =
    let (_, passes, h1) = and_then-ok _ _ (a, conflicts) h in
    (ap (λ x. x.0) (ok-injective _ (a, conflicts) h1), refuse_if-ok _ _ _ passes)

-- the checks let the session alone through in a slot that fits, and not against conflicts
pub update_checks-this :
    (resolve : ResolveIds) (digest : List ℕ → Impact → ℕ) (is_production : Bool) (now i : ℕ)
    (dto : UpdateSession) (opts : InternalOptions) (c : Calendar) (a : Accounted)
    (conflicts : List Conflict)
    → dto.scope ≡ this
    → is_clock_or_none dto.start_time ≡ true
    → IsClear c
    → update_checks resolve digest is_production now i dto opts c ≡ ok (a, conflicts)
    → (cur : Row ClassSession) × (find_by_id i c.tables.sessions ≡ some cur)
      × IsAlone cur a.primary a.members
      × (is_stopped is_production dto a.primary.fields
            (update_conflicts opts c (a.primary ∷ a.members))
          ≡ false)
unfolding update_checks
update_checks-this resolve digest is_production now i dto opts c a conflicts alone clock v h =
    let ((t, ts, reset), plans, h1) = and_then-ok _ _ (a, conflicts) h in
    let (b, accounted, h2) = and_then-ok _ _ (a, conflicts) h1 in
    let (same, passes) = conflicts_allowed-ok is_production dto opts c b a conflicts h2 in
    let context = load_fresh (target_ids (t ∷ ts)) c.tables in
    let (primary, members) =
      accounting_allowed-ok resolve digest dto c context t ts reset b accounted in
    let (cur, found, one) =
      planned_targets-this resolve now i dto opts c t ts reset alone clock v plans in
    (
      cur,
      found,
      subst (λ x. IsAlone cur x.primary x.members) same
          (subst (λ x. IsAlone cur x b.members) (sym primary)
            (subst (λ x. IsAlone cur t x) (sym members) one)),
      subst
          (λ x.
            is_stopped is_production dto x.primary.fields
              (update_conflicts opts c (x.primary ∷ x.members))
            ≡ false)
          same passes,
    )
