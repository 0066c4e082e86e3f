-- ===== src/Planning/Context/Pricing.antt =====
-- That the previews of accounting effects price a session with the rows that payouts price it with.
use taco_backend.Common.{
  ℕ, ◌≡◌, refl, sym, ap, ◌∙◌, fun_ext, Bool, true, false, ◌&&◌, List, [], ◌∷◌, ◌==◌, elem, filter,
  find_last, map_option, map, arith, Bool-cases, inl, inr,
}
use taco_backend.Store.{Row, is_active}
use taco_backend.Schedule.Entity.{ClassSession}
use taco_backend.Schedule.Participants.{ResolveIds}
use taco_backend.Payouts.Rows.{Db, Attendance, SessionReport}
use taco_backend.Payouts.Read.{pricing_input_of, effective_hourly_rate_for, report_status}
use taco_backend.Planning.Context.{
  rows_of_session, load_fresh, lookup_dependents, pricing_input_for,
}
use taco_backend.Planning.Dates.{distinct_from}

find_last-filter :
    {A : Type 0} (p q r : A → Bool) (xs : List A)
    → ((x : A) → (q x && p x) ≡ r x)
    → find_last p (filter q xs) ≡ find_last r xs
find_last-filter p q r [] h = refl
find_last-filter p q r (x ∷ xs) h = ground (arith, h x, find_last-filter p q r xs h)

-- a lookup in the context, made for the ids that were not seen before, finds the rows of the session
lookup-distinct :
    (db : Db) (i : ℕ) (seen ids : List ℕ)
    → elem i seen ≡ false
    → elem i ids ≡ true
    → lookup_dependents i (map (λ k. (k, rows_of_session db k)) (distinct_from seen ids))
      ≡ rows_of_session db i
lookup-distinct db i seen [] h e = absurd (ground arith)
lookup-distinct db i seen (k ∷ ids) h e = elim (Bool-cases (elem k seen)) [
  | inl old ↦ elim (Bool-cases (k == i)) [
    | inl same ↦ absurd (ground (arith, ap (λ j. elem j seen) {x = k} {y = i} (ground arith)))
    | inr apart ↦ rw old (lookup-distinct db i seen ids h (ground arith))
  ]
  | inr new ↦ elim (Bool-cases (k == i)) [
    | inl same ↦ rw (new, same) (ap (rows_of_session db) (ground arith))
    | inr apart ↦
        rw (new, apart) (lookup-distinct db i (k ∷ seen) ids (ground arith) (ground arith))
  ]
]

-- searching the session's rows for a student is searching all rows for both
find_last-of_session :
    {R : Type 0} (of_session of_student : Row R → Bool) (rows : List (Row R))
    → find_last of_student (filter (λ r. is_active r && of_session r) rows)
      ≡ find_last (λ r. of_session r && of_student r) (filter is_active rows)
find_last-of_session of_session of_student rows =
    find_last-filter of_student (λ r. is_active r && of_session r)
      (λ r. (is_active r && of_session r) && of_student r) rows (λ r. refl)
    ∙ sym (
        find_last-filter (λ r. of_session r && of_student r) is_active
          (λ r. (is_active r && of_session r) && of_student r) rows (λ r. ground arith))

-- Priced at the rate that payouts use, a session that the context was loaded for has the input that
-- payouts price it with: the participants, reports and attendance are the same.
pub pricing_input_for-payouts :
    (resolve : ResolveIds) (db : Db) (ids : List ℕ) (s : Row ClassSession)
    → elem s.id ids ≡ true
    → pricing_input_for resolve
        (load_fresh ids db)
        s.id
        s.val
        (effective_hourly_rate_for db s.val.course_id s.val.instructor_id)
      ≡ pricing_input_of resolve db s
unfolding pricing_input_for pricing_input_of load_fresh
pricing_input_for-payouts resolve db ids s h =
    let found = lookup-distinct db s.id [] ids refl h in
    let reports = fun_ext λ n. ap report_status (
      find_last-of_session (λ (r : Row SessionReport). r.val.session_id == s.id)
        (λ r. r.val.student_id == n) db.reports.rows) in
    let marks = fun_ext λ n. ap (map_option (λ (a : Row Attendance). a.val.status)) (
      find_last-of_session (λ (a : Row Attendance). a.val.session_id == s.id)
        (λ a. a.val.student_id == n) db.attendance.rows) in
    rw (found, reports, marks)
