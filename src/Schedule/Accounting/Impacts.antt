-- ===== src/Schedule/Accounting/Impacts.antt =====
-- The accounting effect of changing, removing and combining sessions.
use taco_backend.Common.{
  ℕ, ◌+◌, ◌≡◌, refl, ap, ◌∙◌, ◌↔◌, Bool, false, Option, List, [], ◌∷◌, All, arith,
}
use taco_backend.Common.Int.{sub_ℕ, ◌+ℤ◌}
use taco_backend.Schedule.Entity.{ClassSession}
use taco_backend.Schedule.Accounting.{SessionPricingInput}
use taco_backend.Schedule.Accounting.Projections.{
  Projection, Impact, delta_of, is_changed, accounting_projection_of, accounting_impact_of,
  accounting_impact_of_removal, add_projection, add_delta, zero_projection, sum_projections,
  sum_deltas, combine_accounting_impacts,
}

-- The three differences are zero exactly when the two projections are the same.
changed-false_iff : (a b : Projection) → (is_changed (delta_of a b) ≡ false) ↔ (a ≡ b)
changed-false_iff a b = (λ h. ground arith, λ e. ground arith)

-- An impact is reported as unchanged exactly when the change leaves the session's projection as it is.
pub accounting_impact-unchanged_iff :
    (s s' : ClassSession) (p p' : SessionPricingInput)
    → ((accounting_impact_of s s' p p').changed ≡ false)
      ↔ (accounting_projection_of s p ≡ accounting_projection_of s' p')
unfolding accounting_impact_of
accounting_impact-unchanged_iff s s' p p' =
    changed-false_iff (accounting_projection_of s p) (accounting_projection_of s' p')

-- Linking a session to a payout, or paying it, does not change its projection.
pub accounting_projection-unlinked :
    (s : ClassSession) (p : SessionPricingInput) (payout : Option ℕ) (paid : Bool)
    → accounting_projection_of (record s { payout_id = payout; is_paid = paid }) p
      ≡ accounting_projection_of s p
unfolding accounting_projection_of
accounting_projection-unlinked s p payout paid = refl

-- After a removal nothing is left to count or to pay, so the impact is the whole old projection.
pub accounting_impact_of_removal-after :
    (s : ClassSession) (p : SessionPricingInput)
    → let i = accounting_impact_of_removal s p in
      (i.after ≡ zero_projection)
      × (i.before ≡ accounting_projection_of s p)
      × (i.delta ≡ delta_of i.before zero_projection)
unfolding accounting_impact_of_removal accounting_projection_of
accounting_impact_of_removal-after s p =
    let gone : (accounting_impact_of_removal s p).after ≡ zero_projection = ground arith in
    (gone, refl, ap (delta_of (accounting_projection_of s p)) gone)

sub_ℕ-add : (a b x y : ℕ) → sub_ℕ b a +ℤ sub_ℕ y x ≡ sub_ℕ (b + y) (a + x)
unfolding ◌+ℤ◌
sub_ℕ-add a b x y = ground arith

delta_of-add :
    (a b x y : Projection)
    → add_delta (delta_of a b) (delta_of x y) ≡ delta_of (add_projection a x) (add_projection b y)
delta_of-add a b x y = λ i. record {
  teaching_minutes =
      sub_ℕ-add a.teaching_minutes b.teaching_minutes x.teaching_minutes y.teaching_minutes i;
  payout_eligible_minutes =
      sub_ℕ-add a.payout_eligible_minutes b.payout_eligible_minutes x.payout_eligible_minutes
        y.payout_eligible_minutes i;
  computed_amount =
      sub_ℕ-add a.computed_amount b.computed_amount x.computed_amount y.computed_amount i;
}

-- An impact whose differences are those of its two sides, as `accounting_impact_of` makes them.
abbrev pub IsBalanced : Impact → Type 0
IsBalanced i = i.delta ≡ delta_of i.before i.after

sum_deltas-eq :
    (a b : Projection) (is : List Impact)
    → All IsBalanced is
    → sum_deltas (delta_of a b) is
      ≡ delta_of (sum_projections (λ i. i.before) a is) (sum_projections (λ i. i.after) b is)
sum_deltas-eq a b [] h = refl
sum_deltas-eq a b (i ∷ is) h =
    ap (λ d. sum_deltas (add_delta (delta_of a b) d) is) h.0
    ∙ (ap (λ d. sum_deltas d is) (delta_of-add a b i.before i.after)
        ∙ sum_deltas-eq (add_projection a i.before) (add_projection b i.after) is h.1)

-- Combining impacts keeps the books: the combined difference is the difference of the combined sides.
pub combine-IsBalanced :
    (is : List Impact) → All IsBalanced is → IsBalanced (combine_accounting_impacts is)
unfolding combine_accounting_impacts
combine-IsBalanced is h = sum_deltas-eq zero_projection zero_projection is h
