-- ===== src/Base/Dates.antt =====
-- `Date` of JavaScript: an invalid date, whose `getTime()` is NaN, or the milliseconds since 1970.
-- Dates before 1970 are left out.
use Prim.Native.Nat.{ℕ}
use mathlib.Core.Bool.{Bool, false}
use dazat_mobility.Base.Tests.{ltb, leb}
use dazat_mobility.Base.Numbers.{sub_ℕ, floor_div, Number, nan, ratio}

pub data Date : Type 0 where
  invalid : Date
  at : ℕ → Date

-- a.getTime() < b.getTime() and a.getTime() <= b.getTime()
abbrev pub before : Date → Date → Bool
before (at a) (at b) = ltb a b
before _ _ = false

abbrev pub not_after : Date → Date → Bool
not_after (at a) (at b) = leb a b
not_after _ _ = false

-- (a.getTime() - b.getTime()) / 1_000
abbrev pub seconds_between : Date → Date → Number
seconds_between (at a) (at b) = ratio (sub_ℕ a b) 999
seconds_between _ _ = nan

-- Math.floor((a.getTime() - b.getTime()) / 60_000)
abbrev pub minutes_between : Date → Date → Number
minutes_between (at a) (at b) = ratio (floor_div (sub_ℕ a b) 60_000) 0
minutes_between _ _ = nan

-- a.getTime() - b.getTime()
abbrev pub ms_between : Date → Date → Number
ms_between (at a) (at b) = ratio (sub_ℕ a b) 0
ms_between _ _ = nan
