-- ===== src/Schedule/Accounting/Projections.antt =====
-- src/modules/schedule/session-accounting.policy.ts: what a session counts for in the accounts, and the
-- effect of a change, of a removal and of several changes together.
use taco_backend.Common.{
  ℕ, ◌+◌, Bool, false, not, ◌||◌, Option, none, List, [], ◌∷◌, if◌then◌else◌, is_none, any, get_or,
  or_else,
}
use taco_backend.Common.Int.{ℤ, pos, sub_ℕ, ◌+ℤ◌, is_zero_ℤ}
use taco_backend.Schedule.Entity.{SessionStatus, ClassSession}
use taco_backend.Schedule.Accounting.{
  SessionPricingInput, teaching_minutes_of, classify_session_for_payout,
}

pub record Projection : Type 0 where
  pub teaching_minutes : ℕ
  pub payout_eligible_minutes : ℕ
  pub computed_amount : ℕ

pub record Delta : Type 0 where
  pub teaching_minutes : ℤ
  pub payout_eligible_minutes : ℤ
  pub computed_amount : ℤ

-- the session without its payout link: the link is a lifecycle matter, not one of price
abbrev pub unlinked : ClassSession → ClassSession
unlinked s = record s { payout_id = none; is_paid = false }

unfoldable pub accounting_projection_of : ClassSession → SessionPricingInput → Projection
unfolding teaching_minutes_of classify_session_for_payout
accounting_projection_of s p =
    let minutes = teaching_minutes_of s in
    let amount = (classify_session_for_payout (unlinked s) p).effective_amount in
    record {
      teaching_minutes = minutes;
      payout_eligible_minutes = if is_none amount then 0 else minutes;
      computed_amount = get_or amount 0;
    }

pub record Impact : Type 0 where
  pub changed : Bool
  pub payout_id : Option ℕ
  pub before : Projection
  pub after : Projection
  pub delta : Delta

abbrev pub delta_of : Projection → Projection → Delta
delta_of before after = record {
  teaching_minutes = sub_ℕ after.teaching_minutes before.teaching_minutes;
  payout_eligible_minutes = sub_ℕ after.payout_eligible_minutes before.payout_eligible_minutes;
  computed_amount = sub_ℕ after.computed_amount before.computed_amount;
}

abbrev pub is_changed : Delta → Bool
is_changed d =
    not (is_zero_ℤ d.teaching_minutes)
    || (not (is_zero_ℤ d.payout_eligible_minutes) || not (is_zero_ℤ d.computed_amount))

abbrev pub impact_between : Option ℕ → Projection → Projection → Impact
impact_between payout before after =
    let d = delta_of before after in
    record { changed = is_changed d; payout_id = payout; before = before; after = after; delta = d }

unfoldable pub accounting_impact_of :
    ClassSession → ClassSession → SessionPricingInput → SessionPricingInput → Impact
accounting_impact_of s s' p p' =
    impact_between s.payout_id (accounting_projection_of s p) (accounting_projection_of s' p')

unfoldable pub accounting_impact_of_removal : ClassSession → SessionPricingInput → Impact
unfolding accounting_impact_of
accounting_impact_of_removal s p =
    accounting_impact_of s (record s { status = SessionStatus.canceled }) p p

abbrev pub add_projection : Projection → Projection → Projection
add_projection a b = record {
  teaching_minutes = a.teaching_minutes + b.teaching_minutes;
  payout_eligible_minutes = a.payout_eligible_minutes + b.payout_eligible_minutes;
  computed_amount = a.computed_amount + b.computed_amount;
}

abbrev pub add_delta : Delta → Delta → Delta
add_delta a b = record {
  teaching_minutes = a.teaching_minutes +ℤ b.teaching_minutes;
  payout_eligible_minutes = a.payout_eligible_minutes +ℤ b.payout_eligible_minutes;
  computed_amount = a.computed_amount +ℤ b.computed_amount;
}

abbrev pub zero_projection : Projection
zero_projection = record { teaching_minutes = 0; payout_eligible_minutes = 0; computed_amount = 0 }

abbrev pub zero_delta : Delta
zero_delta = record {
  teaching_minutes = pos 0;
  payout_eligible_minutes = pos 0;
  computed_amount = pos 0;
}

-- the `reduce`s of `sum`, from the left
abbrev pub sum_projections : (Impact → Projection) → Projection → List Impact → Projection
sum_projections side acc [] = acc
sum_projections side acc (i ∷ is) = sum_projections side (add_projection acc (side i)) is

abbrev pub sum_deltas : Delta → List Impact → Delta
sum_deltas acc [] = acc
sum_deltas acc (i ∷ is) = sum_deltas (add_delta acc i.delta) is

abbrev pub first_payout_id : List Impact → Option ℕ
first_payout_id [] = none
first_payout_id (i ∷ is) = or_else i.payout_id (first_payout_id is)

unfoldable pub combine_accounting_impacts : List Impact → Impact
combine_accounting_impacts is = record {
  changed = any (λ i. i.changed) is;
  payout_id = first_payout_id is;
  before = sum_projections (λ i. i.before) zero_projection is;
  after = sum_projections (λ i. i.after) zero_projection is;
  delta = sum_deltas zero_delta is;
}
