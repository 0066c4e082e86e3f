-- ===== src/RefreshTokens.antt =====
-- src/modules/auth/refresh-tokens.service.ts: refresh tokens that are issued, rotated and revoked.
-- A token and its digest are the numbers that their hexadecimal texts write. `sha256` and the random
-- new token come from outside. The user agent is left out, and so are the locks of a rotation: the
-- rotations of one token run one at a time, each in a transaction.
pub mod Once
pub mod Reuse
mod Tests
use taco_backend.Common.{
  ℕ, ◌+◌, ◌*◌, Bool, true, false, ◌&&◌, Option, none, some, List, [], ◌∷◌, ◌==◌, leb, if◌then◌else◌,
  is_some, is_none, length, filter,
}
use taco_backend.Store.{Row, Table, insert, update, find_active, find_by}

pub record RefreshToken : Type 0 where
  pub user_id : ℕ
  pub token_hash : ℕ
  pub auth_version : ℕ
  pub expires_at : ℕ
  pub revoked_at : Option ℕ
  pub replaced_by_id : Option ℕ

abbrev pub Tokens : Type 0
Tokens = Table RefreshToken

pub data Rotation : Type 0 where
  missing : Rotation
  reuse : ℕ → Rotation
  expired : ℕ → Rotation
  rotated : Row RefreshToken → ℕ → Row RefreshToken → Rotation

abbrev pub revoke : ℕ → RefreshToken → RefreshToken
revoke now v = record v { revoked_at = some now }

abbrev pub is_live : Row RefreshToken → Bool
is_live r = is_none r.val.revoked_at

unfoldable pub revoke_rows : ℕ → List (Row RefreshToken) → Tokens → Tokens
revoke_rows now [] t = t
revoke_rows now (r ∷ rs) t = revoke_rows now rs (update now r.id (revoke now) t).1

abbrev pub live_rows_of : ℕ → Tokens → List (Row RefreshToken)
live_rows_of user t = filter is_live (find_by (λ r. r.val.user_id == user) t)

-- how many tokens were revoked, and the table
unfoldable pub revoke_all_for_user : ℕ → ℕ → Tokens → ℕ × Tokens
revoke_all_for_user now user t =
    let active = live_rows_of user t in (length active, revoke_rows now active t)

module _ (sha256 : ℕ → ℕ) (ttl_ms : ℕ) where
  -- the new token `raw` is random
  unfoldable pub issue : ℕ → ℕ → ℕ → ℕ → Tokens → Row RefreshToken × Tokens
  issue now raw user version t =
      insert now
        (record {
          user_id = user;
          token_hash = sha256 raw;
          auth_version = version;
          expires_at = now + ttl_ms;
          revoked_at = none;
          replaced_by_id = none;
        })
        t

  unfoldable pub find_by_raw : ℕ → Tokens → Option (Row RefreshToken)
  find_by_raw raw t = find_active (λ r. r.val.token_hash == sha256 raw) t

  unfoldable pub revoke_by_raw : ℕ → ℕ → Tokens → Tokens
  unfolding find_by_raw
  revoke_by_raw now raw t = elim (find_by_raw raw t) [
    | none ↦ t
    | some row ↦ if is_live row then (update now row.id (revoke now) t).1 else t
  ]

  abbrev revoke_previous : ℕ → Option ℕ → Tokens → Tokens
  revoke_previous now none t = t
  revoke_previous now (some raw) t = revoke_by_raw now raw t

  unfoldable pub replace_browser_session :
      ℕ → Option ℕ → ℕ → ℕ → ℕ → Tokens → Row RefreshToken × Tokens
  unfolding issue
  replace_browser_session now previous raw user version t =
      issue now raw user version (revoke_previous now previous t)

  -- the successor's row and the predecessor's link to it
  abbrev pub succeed : ℕ → Row RefreshToken → ℕ → Tokens → Rotation × Tokens
  succeed now row fresh t =
      let (next, t') = issue now fresh row.val.user_id row.val.auth_version t in
      (
        rotated row fresh next,
        (update now row.id (λ v. record v { revoked_at = some now; replaced_by_id = some next.id })
            t').1,
      )

  -- `fresh` is the random token of the successor
  unfoldable pub rotate : ℕ → ℕ → ℕ → Tokens → Rotation × Tokens
  unfolding find_by_raw issue revoke_all_for_user
  rotate now raw fresh t = elim (find_by_raw raw t) [
    | none ↦ (missing, t)
    | some row ↦
        if is_some row.val.revoked_at
        then (reuse row.val.user_id, (revoke_all_for_user now row.val.user_id t).1)
        else if leb row.val.expires_at now
        then (expired row.val.user_id, (update now row.id (revoke now) t).1)
        else succeed now row fresh t
  ]
