-- ===== src/Auxiliary/Laws.antt =====
-- lib/auxiliary.c, `timespec_sub`: subtraction of the times in nanoseconds.
use reco_nic.Prelude.{
  ℕ, ◌+◌, ◌-◌, ◌*◌, ◌≤◌, ◌<◌, inl, inr, Bool-cases, ◌≡◌, refl, ℤ, pos, negsuc, difference, ◌+ℤ◌,
  ◌-ℤ◌, ◌*ℤ◌, pos_part, neg_part, arith, leb, if◌then◌else◌,
}
use reco_nic.Auxiliary.{Timespec, timespec_sub}

-- The time in nanoseconds.
abbrev pub nanoseconds : Timespec → ℤ
nanoseconds t = t.tv_sec *ℤ 1000000000 +ℤ t.tv_nsec

-- The nanoseconds stand for less than a second.
pub record IsNormal (t : Timespec) : Type 0 where
  pub nsec : ℕ
  pub tv_nsec : t.tv_nsec ≡ pos nsec
  pub below : nsec < 1000000000

-- The two cases for normalized times: without and with a borrow from the seconds.
timespec_sub_cases :
    (s1 s2 : ℤ) (a b : ℕ)
    → a < 1000000000
    → b < 1000000000
    → timespec_sub
        (record { tv_sec = s1; tv_nsec = pos a })
        (record { tv_sec = s2; tv_nsec = pos b })
      ≡ (if leb b a
          then record { tv_sec = s1 -ℤ s2; tv_nsec = pos (a - b) }
          else record { tv_sec = s1 -ℤ s2 -ℤ pos 1; tv_nsec = pos (a + 1000000000 - b) })
unfolding timespec_sub
timespec_sub_cases s1 s2 a b la lb = ground arith

difference_balance : (a b : ℕ) → pos_part (difference a b) + b ≡ neg_part (difference a b) + a
difference_balance a b = ground arith

difference_eq : (a b c d : ℕ) → a + d ≡ c + b → difference a b ≡ difference c d
difference_eq a b c d e = ground arith

without_borrow :
    (s1 s2 : ℤ) (a b : ℕ)
    → b ≤ a
    → (s1 -ℤ s2) *ℤ 1000000000 +ℤ pos (a - b)
      ≡ (s1 *ℤ 1000000000 +ℤ pos a) -ℤ (s2 *ℤ 1000000000 +ℤ pos b)
without_borrow s1 s2 a b le =
    let d = difference_balance (pos_part s1 + neg_part s2) (neg_part s1 + pos_part s2) in
    let l =
      difference_balance (pos_part (s1 -ℤ s2) * 1000000000) (neg_part (s1 -ℤ s2) * 1000000000) in
    let x = difference_balance (pos_part s1 * 1000000000) (neg_part s1 * 1000000000) in
    let y = difference_balance (pos_part s2 * 1000000000) (neg_part s2 * 1000000000) in
    let u =
      difference_balance (pos_part (s1 *ℤ 1000000000) + a) (neg_part (s1 *ℤ 1000000000) + 0) in
    let v =
      difference_balance (pos_part (s2 *ℤ 1000000000) + b) (neg_part (s2 *ℤ 1000000000) + 0) in
    difference_eq (pos_part ((s1 -ℤ s2) *ℤ 1000000000) + (a - b))
      (neg_part ((s1 -ℤ s2) *ℤ 1000000000) + 0)
      (pos_part (s1 *ℤ 1000000000 +ℤ pos a) + neg_part (s2 *ℤ 1000000000 +ℤ pos b))
      (neg_part (s1 *ℤ 1000000000 +ℤ pos a) + pos_part (s2 *ℤ 1000000000 +ℤ pos b))
      (omega (arith, d, l, x, y, u, v))

with_borrow :
    (s1 s2 : ℤ) (a b : ℕ)
    → a < b
    → b < 1000000000
    → (s1 -ℤ s2 -ℤ pos 1) *ℤ 1000000000 +ℤ pos (a + 1000000000 - b)
      ≡ (s1 *ℤ 1000000000 +ℤ pos a) -ℤ (s2 *ℤ 1000000000 +ℤ pos b)
with_borrow (pos m) (pos n) a b lt small = ground arith
with_borrow (pos m) (negsuc n) a b lt small = ground arith
with_borrow (negsuc m) (pos n) a b lt small = ground arith
with_borrow (negsuc m) (negsuc n) a b lt small = ground arith

-- The difference of two normalized times is normalized, and is the difference of their nanoseconds,
-- whichever is the later one and whatever the signs of the seconds.
pub timespec_sub-nanoseconds :
    (t1 t2 : Timespec)
    → IsNormal t1
    → IsNormal t2
    → IsNormal (timespec_sub t1 t2)
      × (nanoseconds (timespec_sub t1 t2) ≡ nanoseconds t1 -ℤ nanoseconds t2)
timespec_sub-nanoseconds t1 t2 n1 n2 = rw n1.tv_nsec (
    rw n2.tv_nsec (
      rw (timespec_sub_cases t1.tv_sec t2.tv_sec n1.nsec n2.nsec n1.below n2.below)
        (elim (Bool-cases (leb n2.nsec n1.nsec)) [
          | inl enough ↦ rw enough (
            record { nsec = n1.nsec - n2.nsec; tv_nsec = refl; below = omega (arith, n1.below) },
            without_borrow t1.tv_sec t2.tv_sec n1.nsec n2.nsec (ground arith),
          )
          | inr borrow ↦ rw borrow (
            record {
              nsec = n1.nsec + 1000000000 - n2.nsec;
              tv_nsec = refl;
              below = ground (arith, n1.below);
            },
            with_borrow t1.tv_sec t2.tv_sec n1.nsec n2.nsec (ground arith) n2.below,
          )
        ])))
