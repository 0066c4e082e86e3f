-- ===== src/Planning/Books/Clear.antt =====
-- Histories of payout and calendar requests in production, and the sessions that they leave apart.
use taco_backend.Common.{◌≡◌, sym, subst, true}
use taco_backend.Schedule.Participants.{ResolveIds}
use taco_backend.Schedule.Accounting.Projections.{Impact}
use taco_backend.Payouts.Sound.{IsSound}
use taco_backend.Common.{ℕ, List}
use taco_backend.Planning.{Calendar}
use taco_backend.Planning.History.{IsPlain, perform-IsClear}
use taco_backend.Planning.Apart.{IsClear, IsDisjoint}
use taco_backend.Planning.Apart.Settlement.Commands.{serve-SessionsApart}
use taco_backend.Planning.Books.History.{Mixed, begun, settled, planned, besides, Mixed-IsSound}

module _ (resolve : ResolveIds) (digest : List ℕ → Impact → ℕ) (start : Calendar) where
  -- every calendar request is a plain one, and other services leave the sessions alone
  abbrev pub IsPlainHistory : (c : Calendar) → Mixed resolve digest true start c → Type 0
  IsPlainHistory _ begun = Unit
  IsPlainHistory _ (settled {c} now actor r before) = IsPlainHistory c before
  IsPlainHistory _ (planned {c} now actor why r before) = IsPlain r × IsPlainHistory c before
  IsPlainHistory _ (besides {c} {c'} before w) =
      (c'.tables.sessions ≡ c.tables.sessions) × IsPlainHistory c before

  -- In production, after any history in which payout requests and calendar requests follow one another
  -- in any order, whether they went through or threw, with writes of other services between them that
  -- leave the sessions and the books of the payouts alone, a calendar that was clear, over tables that
  -- were sound, is clear again: no two active sessions that are not called off share an instructor or
  -- a room at a time, and every session has times that fit together. Created sessions start at times
  -- of the day, and an edit is of one session, to a time of the day if to any, and carries no
  -- attendance command.
  pub Mixed-IsClear :
      (c : Calendar)
      → IsSound start.tables
      → IsClear start
      → (h : Mixed resolve digest true start c) → IsPlainHistory c h
      → IsClear c
  Mixed-IsClear _ sound v begun p = v
  Mixed-IsClear _ sound v (settled {c} now actor r before) p =
      serve-SessionsApart resolve now actor r c.tables
        (Mixed-IsSound resolve digest true start c sound before) (Mixed-IsClear c sound v before p)
  Mixed-IsClear _ sound v (planned {c} now actor why r before) p =
      perform-IsClear resolve digest now actor why r c p.0 (Mixed-IsClear c sound v before p.1)
  Mixed-IsClear _ sound v (besides {c} {c'} before w) p =
      subst IsDisjoint (sym p.0) (Mixed-IsClear c sound v before p.1)
