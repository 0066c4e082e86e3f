-- ===== src/RefreshTokens/Once.antt =====
-- That a rotation gives one successor, and that a token works once.
use taco_backend.Common.{
  ℕ, ◌+◌, ◌≡◌, refl, ap, ◌∙◌, Bool, true, false, ◌&&◌, none, some, [], ◌∷◌, ◌++◌, ◌==◌, leb,
  map_option, or_else, find, Bool-cases, inl, inr, arith,
}
use taco_backend.Store.{
  Row, insert, update, find_active, find_by_id, find_row, is_active, patch_row, new_row, mutate,
}
use taco_backend.Store.WellFormed.{IsBelow, IsWellFormed, insert-IsWellFormed, find_row_fresh}
use taco_backend.Store.Search.{find-append, find-mutate, patch_at, find_row-found}
use taco_backend.Store.Active.{find_by_id-insert}
use taco_backend.RefreshTokens.{
  RefreshToken, Tokens, rotated, reuse, is_live, issue, find_by_raw, rotate,
}

abbrev has_hash : ℕ → Row RefreshToken → Bool
has_hash h r = is_active r && (r.val.token_hash == h)

module _ (sha256 : ℕ → ℕ) (ttl_ms now fresh : ℕ) (t : Tokens) (row : Row RefreshToken) where
  abbrev replaced : RefreshToken → RefreshToken
  replaced v = record v { revoked_at = some now; replaced_by_id = some (t.sequence + 1) }

  abbrev pub successor : Row RefreshToken
  successor = new_row (t.sequence + 1) now (record {
    user_id = row.val.user_id;
    token_hash = sha256 fresh;
    auth_version = row.val.auth_version;
    expires_at = now + ttl_ms;
    revoked_at = none;
    replaced_by_id = none;
  })

  abbrev after_rotation : Tokens
  after_rotation = record {
    rows = mutate row.id (patch_row now replaced) (t.rows ++ successor ∷ []);
    sequence = t.sequence + 1;
  }

  module _ (raw : ℕ) (wf : IsWellFormed t)
      (found : find_by_raw sha256 ttl_ms raw t ≡ some row) where
    found_in_rows : find (has_hash (sha256 raw)) t.rows ≡ some row
    unfolding find_by_raw
    found_in_rows = found

    row_stored : find_row row.id t.rows ≡ some row
    row_stored = (find_row-found (has_hash (sha256 raw)) t.sequence t.rows row wf found_in_rows).0

    row_active : is_active row ≡ true
    row_active =
        let (_, e) =
          find_row-found (has_hash (sha256 raw)) t.sequence t.rows row wf found_in_rows in
        ground arith

    known_id : (t.sequence + 1 == row.id) ≡ false
    known_id = elim (Bool-cases (t.sequence + 1 == row.id)) [
      | inr e ↦ e
      | inl e ↦ absurd (ground (arith, row_stored, find_row_fresh t.sequence row.id t.rows wf))
    ]

    row_after_insert :
        find_by_id row.id (issue sha256 ttl_ms now fresh row.val.user_id row.val.auth_version t).1
        ≡ some row
    unfolding issue
    row_after_insert =
        ground
          (arith, find_by_id-insert row.id now successor.val t wf, known_id, row_stored, row_active)

    rotation :
        is_live row ≡ true
        → leb row.val.expires_at now ≡ false
        → rotate sha256 ttl_ms now raw fresh t ≡ (rotated row fresh successor, after_rotation)
    unfolding rotate update issue insert
    rotation live valid = ground (arith, found, row_after_insert)

    after_wf : IsBelow (t.sequence + 1) (t.rows ++ successor ∷ [])
    unfolding insert
    after_wf = insert-IsWellFormed now successor.val t wf

    -- a search of the active rows by a digest, after the rotation
    find_after :
        (h : ℕ)
        → find_active (λ r. r.val.token_hash == h) after_rotation
          ≡ map_option
              (patch_at row.id (patch_row now replaced))
              (or_else (find (has_hash h) t.rows) (find (has_hash h) (successor ∷ [])))
    find_after h =
        find-mutate (has_hash h) row.id (t.sequence + 1) (patch_row now replaced)
          (t.rows ++ successor ∷ []) (λ r. refl) after_wf
        ∙ ap (map_option (patch_at row.id (patch_row now replaced)))
            (find-append (has_hash h) t.rows (successor ∷ []))

    old_found_after :
        find_by_raw sha256 ttl_ms raw after_rotation ≡ some (patch_row now replaced row)
    unfolding find_by_raw
    old_found_after = find_after (sha256 raw) ∙ ground (arith, found_in_rows)

    new_found_after :
        find_by_raw sha256 ttl_ms fresh t ≡ none
        → find_by_raw sha256 ttl_ms fresh after_rotation ≡ some successor
    unfolding find_by_raw
    new_found_after unused = find_after (sha256 fresh) ∙ ground (arith, unused, known_id)

refused :
    (sha256 : ℕ → ℕ) (ttl_ms now raw fresh : ℕ) (t : Tokens) (row : Row RefreshToken)
    → find_by_raw sha256 ttl_ms raw t ≡ some row
    → is_live row ≡ false
    → (rotate sha256 ttl_ms now raw fresh t).0 ≡ reuse row.val.user_id
unfolding rotate
refused sha256 ttl_ms now raw fresh t row found dead = ground (arith, found)

-- A live token that has not expired is rotated. Afterwards the fresh token is found, alive, of the same
-- user and with the full life, provided that its digest was not in use, and any later rotation of the
-- old token is refused as a reuse by its user.
pub rotate-once :
    (sha256 : ℕ → ℕ) (ttl_ms now later raw fresh other : ℕ) (t : Tokens) (row : Row RefreshToken)
    → IsWellFormed t
    → find_by_raw sha256 ttl_ms raw t ≡ some row
    → is_live row ≡ true
    → leb row.val.expires_at now ≡ false
    → find_by_raw sha256 ttl_ms fresh t ≡ none
    → let after = rotate sha256 ttl_ms now raw fresh t in
      let next = successor sha256 ttl_ms now fresh t row in
      (after.0 ≡ rotated row fresh next)
      × (find_by_raw sha256 ttl_ms fresh after.1 ≡ some next)
      × ((rotate sha256 ttl_ms later raw other after.1).0 ≡ reuse row.val.user_id)
rotate-once sha256 ttl_ms now later raw fresh other t row wf found live valid unused =
    let done = rotation sha256 ttl_ms now fresh t row raw wf found live valid in
    let t' = after_rotation sha256 ttl_ms now fresh t row in
    (
      ap (λ x. x.0) done,
      ap (λ x. find_by_raw sha256 ttl_ms fresh x.1) done
          ∙ new_found_after sha256 ttl_ms now fresh t row raw wf found unused,
      ap (λ x. (rotate sha256 ttl_ms later raw other x.1).0) done
          ∙ refused sha256 ttl_ms later raw other t' _
              (old_found_after sha256 ttl_ms now fresh t row raw wf found) refl,
    )
