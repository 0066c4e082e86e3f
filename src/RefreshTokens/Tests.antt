-- ===== src/RefreshTokens/Tests.antt =====
-- A small table of tokens, and the theorems about it at work.
use taco_backend.Common.{
  ℕ, ◌+◌, ◌≡◌, refl, false, ◌&&◌, Option, none, some, [], ◌∷◌, ◌==◌, All, arith,
}
use taco_backend.Store.{Row, find_all}
use taco_backend.RefreshTokens.{RefreshToken, Tokens, rotated, reuse, is_live, find_by_raw, rotate}
use taco_backend.RefreshTokens.Once.{rotate-once, successor}
use taco_backend.RefreshTokens.Reuse.{rotate-reuse}

abbrev token : ℕ → ℕ → Option ℕ → Row RefreshToken
token i hash revoked = record {
  id = i;
  created_at = 100;
  updated_at = 100;
  deleted_at = none;
  deleted_by = none;
  val = record {
    user_id = 7;
    token_hash = hash;
    auth_version = 1;
    expires_at = 900;
    revoked_at = revoked;
    replaced_by_id = none;
  };
}

-- a stand-in for the digest
abbrev digest : ℕ → ℕ
digest raw = raw + 1000

abbrev two_tokens : Option ℕ → Tokens
two_tokens revoked = record { rows = token 1 1005 revoked ∷ token 2 1006 none ∷ []; sequence = 2 }

rotate-once_example :
    let after = rotate digest 500 200 5 8 (two_tokens none) in
    let next = successor digest 500 200 8 (two_tokens none) (token 1 1005 none) in
    (after.0 ≡ rotated (token 1 1005 none) 8 next)
    × (find_by_raw digest 500 8 after.1 ≡ some next)
    × ((rotate digest 500 300 5 9 after.1).0 ≡ reuse 7)
unfolding find_by_raw
rotate-once_example =
    rotate-once digest 500 200 300 5 8 9 (two_tokens none) (token 1 1005 none)
      (ground arith, refl, (ground arith, refl, tt)) refl refl refl refl

rotate-reuse_example :
    let after = rotate digest 500 200 5 8 (two_tokens (some 150)) in
    (after.0 ≡ reuse 7) × All (λ r. ((r.val.user_id == 7) && is_live r) ≡ false) (find_all after.1)
unfolding find_by_raw
rotate-reuse_example =
    rotate-reuse digest 500 200 5 8 (two_tokens (some 150)) (token 1 1005 (some 150))
      (ground arith, refl, (ground arith, refl, tt)) refl refl
