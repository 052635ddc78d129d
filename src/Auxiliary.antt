-- ===== src/Auxiliary.antt =====
-- lib/auxiliary.c: the difference of two times, as the programs that measure latency use it. The
-- fields are mathematical integers: in C a difference of seconds that overflows is undefined.
pub mod Laws
use reco_nic.Prelude.{ℕ, ℤ, pos, ◌+ℤ◌, ◌-ℤ◌, ltb_ℤ, Bool, ◌||◌, not, if◌then◌else◌}

pub record Timespec : Type 0 where
  pub tv_sec : ℤ
  pub tv_nsec : ℤ

-- Whether `timespec_check` returns -1.
unfoldable pub timespec_check : Timespec → Bool
timespec_check t = ltb_ℤ t.tv_nsec (pos 0) || not (ltb_ℤ t.tv_nsec (pos 1000000000))

-- What `*t1` is afterwards.
unfoldable pub timespec_sub : (t1 t2 : Timespec) → Timespec
unfolding timespec_check
timespec_sub t1 t2 =
    if timespec_check t1
    then t1
    else if timespec_check t2
    then t1
    else let sec = t1.tv_sec -ℤ t2.tv_sec in
      let nsec = t1.tv_nsec -ℤ t2.tv_nsec in
      if not (ltb_ℤ nsec (pos 1000000000))
      then record { tv_sec = sec +ℤ pos 1; tv_nsec = nsec -ℤ pos 1000000000 }
      else if ltb_ℤ nsec (pos 0)
      then record { tv_sec = sec -ℤ pos 1; tv_nsec = nsec +ℤ pos 1000000000 }
      else record { tv_sec = sec; tv_nsec = nsec }
