-- ===== src/RefreshTokens/Reuse.antt =====
-- That a reused token takes every token of its user down, and no one else's.
use taco_backend.Common.{
  ℕ, ◌≡◌, refl, sym, ap, ◌∙◌, Bool, true, false, ◌&&◌, some, List, [], ◌∷◌, ◌==◌, if◌then◌else◌,
  map_option, any, filter, All, Bool-cases, Option-cases, inl, inr, arith, subst,
}
use taco_backend.Store.{Row, update, find_all, find_by_id, find_row, is_active, write, patch_row}
use taco_backend.Store.WellFormed.{IsWellFormed}
use taco_backend.Store.Active.{find_by_id-patch, write-IsWellFormed, All-find_all}
use taco_backend.RefreshTokens.{
  RefreshToken, Tokens, reuse, is_live, find_by_raw, rotate, revoke, revoke_rows, live_rows_of,
  revoke_all_for_user,
}

module _ (now : ℕ) where
  abbrev revoked : Row RefreshToken → Row RefreshToken
  revoked r = patch_row now (revoke now) r

  find_by_id-update :
      (i j : ℕ) (t : Tokens)
      → find_by_id j (update now i (revoke now) t).1
        ≡ (if i == j then map_option revoked (find_by_id j t) else find_by_id j t)
  unfolding update
  find_by_id-update i j t = elim (Option-cases (find_by_id i t)) [
    | inl gone ↦ elim (Bool-cases (i == j)) [
      | inl e ↦ ground (arith, gone, ap (λ n. find_by_id n t) {x = i} {y = j} (ground arith))
      | inr e ↦ ground (arith, gone)
    ]
    | inr (r, e) ↦ ground (arith, e, find_by_id-patch j i now (revoke now) t)
  ]

  update-IsWellFormed :
      (i : ℕ) (t : Tokens) → IsWellFormed t → IsWellFormed (update now i (revoke now) t).1
  unfolding update
  update-IsWellFormed i t b = elim (Option-cases (find_by_id i t)) [
    | inl gone ↦ subst IsWellFormed {x = t} (ground (arith, gone)) b
    | inr (r, e) ↦
        subst IsWellFormed {x = write i (patch_row now (revoke now)) t} (ground (arith, e))
          (write-IsWellFormed i now (revoke now) t b)
  ]

  revoke_rows-IsWellFormed :
      (rs : List (Row RefreshToken)) (t : Tokens)
      → IsWellFormed t
      → IsWellFormed (revoke_rows now rs t)
  unfolding revoke_rows
  revoke_rows-IsWellFormed [] t b = b
  revoke_rows-IsWellFormed (r ∷ rs) t b =
      revoke_rows-IsWellFormed rs _ (update-IsWellFormed r.id t b)

  find_by_id-revoke_rows :
      (j : ℕ) (rs : List (Row RefreshToken)) (t : Tokens)
      → find_by_id j (revoke_rows now rs t)
        ≡ (if any (λ r. r.id == j) rs then map_option revoked (find_by_id j t) else find_by_id j t)
  unfolding revoke_rows
  find_by_id-revoke_rows j [] t = refl
  find_by_id-revoke_rows j (r ∷ rs) t = ground (
    arith,
    find_by_id-revoke_rows j rs (update now r.id (revoke now) t).1,
    find_by_id-update r.id j t,
  )

abbrev is_live_of : ℕ → Row RefreshToken → Bool
is_live_of user r = (r.val.user_id == user) && is_live r

-- a live token of the user is among those that are revoked
any-live_rows :
    (user j : ℕ) (rs : List (Row RefreshToken)) (r : Row RefreshToken)
    → find_row j rs ≡ some r
    → is_active r ≡ true
    → is_live_of user r ≡ true
    → any
        (λ x. x.id == j)
        (filter is_live (filter (λ x. is_active x && (x.val.user_id == user)) rs))
      ≡ true
any-live_rows user j [] r e a l = absurd (ground arith)
any-live_rows user j (x ∷ xs) r e a l = elim (Bool-cases (x.id == j)) [
  | inl here ↦
      let same : x ≡ r = ground arith in
      let a' : is_active x ≡ true = ap is_active same ∙ a in
      let l' : is_live_of user x ≡ true = ap (is_live_of user) same ∙ l in ground arith
  | inr there ↦ ground (arith, any-live_rows user j xs r (ground arith) a l)
]

module _ (now user : ℕ) (t : Tokens) (wf : IsWellFormed t) where
  abbrev after_revocation : Tokens
  after_revocation = revoke_rows now (live_rows_of user t) t

  after_at :
      (j : ℕ)
      → find_by_id j after_revocation ≡ (
          if any (λ r. r.id == j) (live_rows_of user t)
          then map_option (revoked now) (find_by_id j t)
          else find_by_id j t)
  after_at j = find_by_id-revoke_rows now j (live_rows_of user t) t

  none_live :
      (j : ℕ) (r : Row RefreshToken)
      → find_by_id j after_revocation ≡ some r
      → r.id ≡ j
      → is_live_of user r ≡ false
  none_live j r e q = elim (Option-cases (find_by_id j t)) [
    | inl gone ↦ absurd (ground (arith, after_at j))
    | inr (r₀, before) ↦ elim (Bool-cases (is_live_of user r₀)) [
      | inl live ↦
          let row : find_row j t.rows ≡ some r₀ = ground arith in
          ground (arith, after_at j, any-live_rows user j t.rows r₀ row (ground arith) live)
      | inr dead ↦ ground (arith, after_at j)
    ]
  ]

-- Rotating a token that was revoked answers with a reuse by its user, and leaves no live token of that
-- user behind.
pub rotate-reuse :
    (sha256 : ℕ → ℕ) (ttl_ms now raw fresh : ℕ) (t : Tokens) (row : Row RefreshToken)
    → IsWellFormed t
    → find_by_raw sha256 ttl_ms raw t ≡ some row
    → is_live row ≡ false
    → let after = rotate sha256 ttl_ms now raw fresh t in
      (after.0 ≡ reuse row.val.user_id)
      × All (λ r. ((r.val.user_id == row.val.user_id) && is_live r) ≡ false) (find_all after.1)
unfolding rotate revoke_all_for_user
rotate-reuse sha256 ttl_ms now raw fresh t row wf found dead =
    let user = row.val.user_id in
    let t' = after_revocation now user t wf in
    let done : rotate sha256 ttl_ms now raw fresh t ≡ (reuse user, t') = ground (arith, found) in
    (
      ap (λ x. x.0) done,
      subst (λ x. All (λ r. is_live_of user r ≡ false) (find_all x)) (sym (ap (λ x. x.1) done))
          (All-find_all (λ r. is_live_of user r ≡ false) t'
            (revoke_rows-IsWellFormed now (live_rows_of user t) t wf) (none_live now user t wf)),
    )
