-- ===== src/Tests/Times.antt =====
-- The theorems on times.
use francois_gingras_master.Common.{◌≡◌, ◌<◌, refl, pos, pos_part, neg_part, done, arith}
use francois_gingras_master.TimeHelper.{Timespec, diff, ts_add, IsNormal, ts_add-diff}

abbrev early : Timespec
early = record { tv_sec = pos 3; tv_nsec = pos 900000000 }

abbrev late : Timespec
late = record { tv_sec = pos 5; tv_nsec = pos 100000000 }

early-IsNormal : IsNormal early
early-IsNormal = record { from_zero = refl; below_giga = omega arith; moderate = omega arith }

late-IsNormal : IsNormal late
late-IsNormal = record { from_zero = refl; below_giga = omega arith; moderate = omega arith }

ts_add-diff_example :
    (d : Timespec) × (diff early late ≡ done d)
    × (neg_part d.tv_nsec ≡ 0)
    × (pos_part d.tv_nsec < 1000000000)
    × (ts_add early d ≡ done late)
ts_add-diff_example = ts_add-diff early late early-IsNormal late-IsNormal
