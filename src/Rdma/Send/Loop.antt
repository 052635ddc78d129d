-- ===== src/Rdma/Send/Loop.antt =====
-- lib/rdma_api.c, the loop of `rdma_post_batch_send`: when it ends, and with what.
use reco_nic.Prelude.{
  ℕ, zero, suc, ◌^◌, ◌≤◌, ◌<◌, ◌≡◌, ◌≢◌, refl, ap, ◌∙◌, List, some, ◌⊎◌, inl, inr, true, false,
  Bool-cases, arith, slt32, minus_one,
}
use reco_nic.Machine.{Machine, Env, Ptr, RdmaDev, RdmaQp, Access, ret, out_of_fuel, update, deref}
use reco_nic.Machine.Poll.{after_reads, nth_read}
use reco_nic.Registers.{timeout_threshold}
use reco_nic.Rdma.Send.{batch_loop}
use reco_nic.Rdma.Send.Poll.{head, poll_cq_cidb-first, poll_cq_cidb-timeout, poll_cq_cidb-returns}
use reco_nic.Rdma.Send.Post.{update_self}

-- The card takes `k` new values of the completion head, each of them shown within 1,001 reads of
-- the one before, from `c` at trace `t` to the first that is not below `pidb`: `c'` at `t'`.
pub data Completes (env : Env) (a pidb : ℕ) (c' : ℕ) (t' : List Access)
    : ℕ → ℕ → List Access → Type 0 where
  finished : slt32 c' pidb ≡ false → Completes env a pidb c' t' 0 c' t'
  shown :
      {k c : ℕ} {t : List Access} (n : ℕ)
      → slt32 c pidb ≡ true
      → n ≤ timeout_threshold
      → ((i : ℕ) → i < n → nth_read env.hardware a i t ≡ c)
      → nth_read env.hardware a n t ≢ c
      → Completes env a pidb c' t' k
          (nth_read env.hardware a n t)
          (after_reads env.hardware a (suc n) t)
      → Completes env a pidb c' t' (suc k) c t

module _ (env : Env) (p qpid : ℕ) (d : RdmaDev) (qp : Ptr) where
  -- The queue pair with its consumer index and its head at `c`.
  abbrev pub at_head : RdmaQp → ℕ → RdmaQp
  at_head q c = record q { cq_cidb = c; sq_cidb = c }

  pub batch_loop-Completes :
      (fuel k c c' : ℕ) (t' : List Access) (q : RdmaQp) (m : Machine)
      → Completes env (head d.axil_ctl qpid) q.sq_pidb c' t' k c m.bus
      → m.rdma_devs p ≡ some d
      → m.qps qp ≡ some (at_head q c)
      → k < fuel
      → (m' : Machine) × (batch_loop env fuel p qpid qp m ≡ ret tt m')
        × (m'.qps qp ≡ some (at_head q c'))
        × (m' ≡ record m { bus = t'; qps = m'.qps })
  unfolding batch_loop
  batch_loop-Completes zero k c c' t' q m run at_dev at_qp enough = absurd (omega arith)
  batch_loop-Completes (suc fuel) zero c c' t' q m (finished stop) at_dev at_qp enough =
      (m, rw (at_qp, deref) (rw stop refl), at_qp, refl)
  batch_loop-Completes (suc fuel) (suc k) c c' t' q m (shown n more room same ne run) at_dev at_qp
        enough =
      let v = nth_read env.hardware (head d.axil_ctl qpid) n m.bus in
      let m1 = record m {
        bus = after_reads env.hardware (head d.axil_ctl qpid) (suc n) m.bus;
        qps = update m.qps qp (some (at_head q v));
      } in
      let (m', rest, at_qp', frame) =
        batch_loop-Completes fuel k v c' t' q m1 run at_dev
          (update_self m.qps qp (some (at_head q v))) (omega arith) in
      (
        m',
        rw (at_qp, deref)
            (rw more (
              rw (poll_cq_cidb-first env m p qpid c d n at_dev same ne room)
                (rw (at_qp, deref) rest))),
        at_qp',
        frame,
      )

  -- However the card answers, the loop is still running or has reached the producer index.
  pub batch_loop-ends :
      (fuel : ℕ) (q : RdmaQp) (m : Machine)
      → m.rdma_devs p ≡ some d
      → m.qps qp ≡ some q
      → ((m' : Machine) × (batch_loop env fuel p qpid qp m ≡ out_of_fuel m'))
        ⊎ ((m' : Machine) × (q' : RdmaQp) × (batch_loop env fuel p qpid qp m ≡ ret tt m')
            × (m'.qps qp ≡ some q')
            × (q'.sq_pidb ≡ q.sq_pidb)
            × (slt32 q'.cq_cidb q.sq_pidb ≡ false))
  unfolding batch_loop
  batch_loop-ends zero q m at_dev at_qp = inl (m, refl)
  batch_loop-ends (suc fuel) q m at_dev at_qp = elim (Bool-cases (slt32 q.cq_cidb q.sq_pidb)) [
    | inr stop ↦ inr (m, q, rw (at_qp, deref) (rw stop refl), at_qp, refl, stop)
    | inl more ↦
        let (v, m1, polled, _, reads) = poll_cq_cidb-returns env m p qpid q.sq_cidb d at_dev in
        let at_qp1 : m1.qps qp ≡ some q = ap (λ (x : Machine). x.qps qp) reads.1 ∙ at_qp in
        let at_dev1 : m1.rdma_devs p ≡ some d =
          ap (λ (x : Machine). x.rdma_devs p) reads.1 ∙ at_dev in
        rw (at_qp, deref)
          (rw more (
            rw polled (
              rw (at_qp1, deref)
                (batch_loop-ends fuel (at_head q v)
                  (record m1 { qps = update m1.qps qp (some (at_head q v)) }) at_dev1
                  (update_self m1.qps qp (some (at_head q v)))))))
  ]

  -- With a head that stays at `s`, polling gives -1 and `s` in turn.
  pub batch_loop-stuck :
      (fuel s c : ℕ) (q : RdmaQp) (m : Machine)
      → ((t : List Access) → env.hardware t (head d.axil_ctl qpid) ≡ s)
      → s < q.sq_pidb
      → q.sq_pidb < 2 ^ 31
      → (c ≡ s) ⊎ (c ≡ minus_one)
      → m.rdma_devs p ≡ some d
      → m.qps qp ≡ some (at_head q c)
      → (m' : Machine) × (batch_loop env fuel p qpid qp m ≡ out_of_fuel m')
  unfolding batch_loop
  batch_loop-stuck zero s c q m fixed below small which at_dev at_qp = (m, refl)
  batch_loop-stuck (suc fuel) s c q m fixed below small (inl now) at_dev at_qp =
      let more : slt32 c q.sq_pidb ≡ true = ground arith in
      let (m1, polled, reads) =
        poll_cq_cidb-timeout env m p qpid c d at_dev (λ i lt.
          ground (arith, fixed (after_reads env.hardware (head d.axil_ctl qpid) i m.bus))) in
      let at_qp1 : m1.qps qp ≡ some (at_head q c) =
        ap (λ (x : Machine). x.qps qp) reads.1 ∙ at_qp in
      let at_dev1 : m1.rdma_devs p ≡ some d =
        ap (λ (x : Machine). x.rdma_devs p) reads.1 ∙ at_dev in
      rw (at_qp, deref)
        (rw more (
          rw polled (
            rw (at_qp1, deref)
              (batch_loop-stuck fuel s minus_one q
                (record m1 { qps = update m1.qps qp (some (at_head q minus_one)) }) fixed below
                small (inr refl) at_dev1 (update_self m1.qps qp (some (at_head q minus_one)))))))
  batch_loop-stuck (suc fuel) s c q m fixed below small (inr failed) at_dev at_qp =
      let more : slt32 c q.sq_pidb ≡ true = ground arith in
      let v = nth_read env.hardware (head d.axil_ctl qpid) 0 m.bus in
      let is_s : v ≡ s = ground (arith, fixed m.bus) in
      let m1 = record m { bus = after_reads env.hardware (head d.axil_ctl qpid) 1 m.bus } in
      rw (at_qp, deref)
        (rw more (
          rw
            (poll_cq_cidb-first env m p qpid c d 0 at_dev (λ i lt. absurd (omega arith))
              (ground arith) (omega arith))
            (rw (at_qp, deref)
              (batch_loop-stuck fuel s v q
                (record m1 { qps = update m1.qps qp (some (at_head q v)) }) fixed below small
                (inl is_s) at_dev (update_self m1.qps qp (some (at_head q v)))))))
