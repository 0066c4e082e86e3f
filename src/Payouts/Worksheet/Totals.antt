-- ===== src/Payouts/Worksheet/Totals.antt =====
-- That the totals of a worksheet are those of the settlement that would be made.
use taco_backend.Common.{
  ℕ, ◌≡◌, refl, sym, ◌∙◌, Bool, List, [], ◌∷◌, if◌then◌else◌, is_some, get_or, filter, length,
  sum_by, sum_by-sort_by, sort_by, arith, Option-cases, inl, inr,
}
use taco_backend.Store.{Row, find_by}
use taco_backend.Time.{IsoDate}
use taco_backend.Schedule.Entity.{ClassSession}
use taco_backend.Schedule.Participants.{ResolveIds}
use taco_backend.Payouts.Rows.{Db, PayoutLine}
use taco_backend.Payouts.Read.{measured, lines_of, priced_amount, in_period, by_session_date}
use taco_backend.Payouts.Worksheet.{
  WorksheetRow, is_included, row_amount, worksheet_rows, worksheet_of,
}

length-sum : {A : Type 0} (xs : List A) → length xs ≡ sum_by (λ x. 1) xs
length-sum [] = refl
length-sum (x ∷ xs) = ground (arith, length-sum xs)

length-sort_by : {A : Type 0} (le : A → A → Bool) (xs : List A) → length (sort_by le xs) ≡ length xs
length-sort_by le xs =
    length-sum (sort_by le xs) ∙ (sum_by-sort_by (λ x. 1) le xs ∙ sym (length-sum xs))

module _ (resolve : ResolveIds) (before : Row ClassSession → Row ClassSession → Bool)
    (db : Db) where
  -- a measure of the included rows, session by session
  abbrev counted : (Row ClassSession → ℕ) → Row ClassSession → ℕ
  counted f s = if is_some (priced_amount resolve db s) then f s else 0

  abbrev amount_or_zero : Row ClassSession → ℕ
  amount_or_zero s = get_or (priced_amount resolve db s) 0

  included_amount :
      (ss : List (Row ClassSession))
      → sum_by row_amount (filter is_included (worksheet_rows resolve before db ss))
        ≡ sum_by amount_or_zero ss
  unfolding worksheet_rows
  included_amount [] = refl
  included_amount (s ∷ ss) = elim (Option-cases (priced_amount resolve db s)) [
    | inl free ↦ ground (arith, included_amount ss)
    | inr (a, e) ↦ ground (arith, included_amount ss)
  ]

  included_minutes :
      (ss : List (Row ClassSession))
      → sum_by
          (λ (r : WorksheetRow). r.duration_minutes)
          (filter is_included (worksheet_rows resolve before db ss))
        ≡ sum_by (counted (λ s. s.val.duration_minutes)) ss
  unfolding worksheet_rows
  included_minutes [] = refl
  included_minutes (s ∷ ss) = elim (Option-cases (priced_amount resolve db s)) [
    | inl free ↦ ground (arith, included_minutes ss)
    | inr (a, e) ↦ ground (arith, included_minutes ss)
  ]

  included_count :
      (ss : List (Row ClassSession))
      → length (filter is_included (worksheet_rows resolve before db ss))
        ≡ sum_by (counted (λ s. 1)) ss
  unfolding worksheet_rows
  included_count [] = refl
  included_count (s ∷ ss) = elim (Option-cases (priced_amount resolve db s)) [
    | inl free ↦ ground (arith, included_count ss)
    | inr (a, e) ↦ ground (arith, included_count ss)
  ]

  lines_amount :
      (ss : List (Row ClassSession))
      → sum_by (λ (l : PayoutLine). l.amount) (lines_of resolve db ss) ≡ sum_by amount_or_zero ss
  unfolding lines_of
  lines_amount [] = refl
  lines_amount (s ∷ ss) = elim (Option-cases (priced_amount resolve db s)) [
    | inl free ↦ ground (arith, lines_amount ss)
    | inr (a, e) ↦ ground (arith, lines_amount ss)
  ]

  lines_minutes :
      (ss : List (Row ClassSession))
      → sum_by (λ (l : PayoutLine). l.duration_minutes) (lines_of resolve db ss)
        ≡ sum_by (counted (λ s. s.val.duration_minutes)) ss
  unfolding lines_of
  lines_minutes [] = refl
  lines_minutes (s ∷ ss) = elim (Option-cases (priced_amount resolve db s)) [
    | inl free ↦ ground (arith, lines_minutes ss)
    | inr (a, e) ↦ ground (arith, lines_minutes ss)
  ]

  lines_count :
      (ss : List (Row ClassSession))
      → length (lines_of resolve db ss) ≡ sum_by (counted (λ s. 1)) ss
  unfolding lines_of
  lines_count [] = refl
  lines_count (s ∷ ss) = elim (Option-cases (priced_amount resolve db s)) [
    | inl free ↦ ground (arith, lines_count ss)
    | inr (a, e) ↦ ground (arith, lines_count ss)
  ]

-- The totals of the worksheet of an instructor and a period are what a settlement of the two would
-- hold: the same number of sessions, the same minutes, and the same amount.
pub worksheet-measured :
    (resolve : ResolveIds) (before : Row ClassSession → Row ClassSession → Bool) (db : Db)
    (instructor : ℕ) (from to : IsoDate)
    → let totals = (worksheet_of resolve before db instructor from to).totals in
      let m = measured resolve db instructor from to in
      (totals.included_count ≡ m.session_count)
      × (totals.total_minutes ≡ m.total_minutes)
      × (totals.total_amount ≡ m.computed_amount)
unfolding worksheet_of measured
worksheet-measured resolve before db instructor from to =
    let ss = find_by (in_period instructor from to) db.sessions in
    let rows = sort_by before ss in
    let ls = lines_of resolve db ss in
    (
      included_count resolve before db rows
          ∙ (sum_by-sort_by _ before ss
              ∙ sym (length-sort_by by_session_date ls ∙ lines_count resolve before db ss)),
      included_minutes resolve before db rows
          ∙ (sum_by-sort_by _ before ss
              ∙ sym (sum_by-sort_by _ by_session_date ls ∙ lines_minutes resolve before db ss)),
      included_amount resolve before db rows
          ∙ (sum_by-sort_by _ before ss
              ∙ sym (sum_by-sort_by _ by_session_date ls ∙ lines_amount resolve before db ss)),
    )
