-- ===== src/Tests/Clock.antt =====
-- A test of the clock: a difference that borrows a second.
use reco_nic.Prelude.{◌≡◌, refl, arith, pos}
use reco_nic.Prelude.{◌-ℤ◌}
use reco_nic.Auxiliary.{Timespec, timespec_check, timespec_sub}
use reco_nic.Auxiliary.Laws.{IsNormal, nanoseconds, timespec_sub-nanoseconds}

abbrev late : Timespec
late = record { tv_sec = pos 5; tv_nsec = pos 100 }

abbrev early : Timespec
early = record { tv_sec = pos 3; tv_nsec = pos 999999999 }

timespec_sub_run : timespec_sub late early ≡ record { tv_sec = pos 1; tv_nsec = pos 101 }
unfolding timespec_sub timespec_check
timespec_sub_run = refl

timespec_sub-nanoseconds_example :
    IsNormal (timespec_sub late early)
    × (nanoseconds (timespec_sub late early) ≡ nanoseconds late -ℤ nanoseconds early)
timespec_sub-nanoseconds_example =
    timespec_sub-nanoseconds late early (record { nsec = 100; tv_nsec = refl; below = omega arith })
      (record { nsec = 999999999; tv_nsec = refl; below = omega arith })
