-- ===== src/Rdma/Send/Batch.antt =====
-- lib/rdma_api.c, `rdma_post_batch_send`: the bound on a batch, when the wait ends, and with what.
use reco_nic.Prelude.{
  ℕ, ◌+◌, ◌^◌, ◌≤◌, ◌<◌, ◌≡◌, refl, ap, ◌∙◌, List, ◌∷◌, some, ◌⊎◌, inl, inr, true, false,
  Bool-cases, ◌||◌, arith, ltb, ◌==◌, if◌then◌else◌, u32, slt32, minus_one,
}
use reco_nic.Machine.{
  Machine, Env, Ptr, RdmaDev, RdmaQp, Access, write, ret, exit_failure, out_of_fuel, update, deref,
}
use reco_nic.Control.{write32_data}
use reco_nic.Rdma.Qp.{qp_pointer, write_q}
use reco_nic.Rdma.Send.{batch_loop, rdma_post_batch_send}
use reco_nic.Rdma.Send.Loop.{
  Completes, at_head, batch_loop-Completes, batch_loop-ends, batch_loop-stuck,
}
use reco_nic.Rdma.Send.Poll.{head}
use reco_nic.Rdma.Send.Post.{HasQp, doorbell, ring, update_self}

module _ (env : Env) (m : Machine) (p qpid : ℕ) (d : RdmaDev) (qp : Ptr) (q : RdmaQp)
    (h : HasQp m p qpid d qp q) (batch_size : ℕ) where
  -- The machine behind the doorbell, and the new producer index.
  abbrev pidb : ℕ
  pidb = u32 (q.sq_pidb + batch_size)

  abbrev rung : Machine
  rung = ring m d.axil_ctl qpid qp q pidb

  module _ (fits : batch_size ≤ q.qdepth) (room : pidb ≤ q.qdepth) (fuel : ℕ) where
    -- The call is the doorbell, the loop, and a result that the head gives.
    after_loop :
        (m2 : Machine) (q2 : RdmaQp)
        → batch_loop env fuel p qpid qp rung ≡ ret tt m2
        → m2.qps qp ≡ some q2
        → rdma_post_batch_send env fuel p qpid batch_size m
          ≡ ret (if slt32 q2.cq_cidb 0 then minus_one else 0) m2
    unfolding rdma_post_batch_send write_q write32_data
    after_loop m2 q2 run at_qp2 =
        let p_real : (p == 0) ≡ false = ground (arith, h.real) in
        let test : (ltb q.qdepth batch_size || ltb q.qdepth pidb) ≡ false = ground arith in
        rw p_real (
          rw (h.at_dev, deref)
            (rw (h.at_pointer, qp_pointer)
              (rw (h.at_qp, deref)
                (rw test (
                  rw run (
                    rw (at_qp2, deref)
                      (elim (Bool-cases (slt32 q2.cq_cidb 0)) [
                        | inl negative ↦ rw negative refl
                        | inr positive ↦ rw positive refl
                      ])))))))

    in_loop :
        (m2 : Machine)
        → batch_loop env fuel p qpid qp rung ≡ out_of_fuel m2
        → rdma_post_batch_send env fuel p qpid batch_size m ≡ out_of_fuel m2
    unfolding rdma_post_batch_send write_q write32_data
    in_loop m2 run =
        let p_real : (p == 0) ≡ false = ground (arith, h.real) in
        let test : (ltb q.qdepth batch_size || ltb q.qdepth pidb) ≡ false = ground arith in
        rw p_real (
          rw (h.at_dev, deref)
            (rw (h.at_pointer, qp_pointer) (rw (h.at_qp, deref) (rw test (rw run refl)))))

  -- A batch that is larger than the queue, or whose last index is past its depth, stops the program
  -- before the doorbell: the card has not been accessed.
  pub rdma_post_batch_send-overflow :
      (fuel : ℕ)
      → (q.qdepth < batch_size) ⊎ (q.qdepth < pidb)
      → (m' : Machine) × (rdma_post_batch_send env fuel p qpid batch_size m ≡ exit_failure m')
        × (m' ≡ record m { qps = m'.qps })
  unfolding rdma_post_batch_send
  rdma_post_batch_send-overflow fuel over =
      let p_real : (p == 0) ≡ false = ground (arith, h.real) in
      let test : (ltb q.qdepth batch_size || ltb q.qdepth pidb) ≡ true = ground arith in
      (
        record m { qps = update m.qps qp (some (record q { sq_pidb = pidb })) },
        rw p_real (
            rw (h.at_dev, deref)
              (rw (h.at_pointer, qp_pointer) (rw (h.at_qp, deref) (rw test refl)))),
        refl,
      )

  -- A batch that fits the queue, on a queue pair whose two consumer indices agree and a card that
  -- completes it step by step and ends at a head that is not negative, returns 0 after `k` waits: the queue pair then has the new producer index and the
  -- head, which is no longer below it, as its consumer index. One doorbell has been rung, and
  -- otherwise the head has only been read.
  pub rdma_post_batch_send-Completes :
      (fuel k c' : ℕ) (t' : List Access)
      → batch_size ≤ q.qdepth
      → pidb ≤ q.qdepth
      → q.cq_cidb ≡ q.sq_cidb
      → Completes env
          (head d.axil_ctl qpid)
          pidb
          c'
          t'
          k
          q.sq_cidb
          (write (doorbell d.axil_ctl qpid) (u32 pidb) ∷ m.bus)
      → slt32 c' 0 ≡ false
      → k < fuel
      → (m' : Machine) × (rdma_post_batch_send env fuel p qpid batch_size m ≡ ret 0 m')
        × (m'.qps qp ≡ some (record q { sq_pidb = pidb; sq_cidb = c'; cq_cidb = c' }))
        × (m' ≡ record m { bus = t'; qps = m'.qps })
  rdma_post_batch_send-Completes fuel k c' t' fits room idle run positive enough =
      let q1 = record q { sq_pidb = pidb } in
      let at_qp1 : rung.qps qp ≡ some (at_head env p qpid d qp q1 q.sq_cidb) =
        update_self m.qps qp (some q1) ∙ ap (λ (c : ℕ). some (record q1 { cq_cidb = c })) idle in
      let (m', looped, at_qp', frame) =
        batch_loop-Completes env p qpid d qp fuel k q.sq_cidb c' t' q1 rung run h.at_dev at_qp1
          enough in
      (
        m',
        after_loop fits room fuel m' (at_head env p qpid d qp q1 c') looped at_qp'
            ∙ rw positive refl,
        at_qp',
        frame,
      )

  -- However the card answers, a batch that fits the queue and ends at an index below 2^31 returns 0
  -- or is still waiting, for any number of rounds: it never returns -1, although polling does at a timeout.
  pub rdma_post_batch_send-never_fails :
      (fuel : ℕ)
      → batch_size ≤ q.qdepth
      → pidb ≤ q.qdepth
      → pidb < 2 ^ 31
      → (m' : Machine) × ((rdma_post_batch_send env fuel p qpid batch_size m ≡ ret 0 m')
          ⊎ (rdma_post_batch_send env fuel p qpid batch_size m ≡ out_of_fuel m'))
  rdma_post_batch_send-never_fails fuel fits room small =
      elim (batch_loop-ends env p qpid d qp fuel (record q { sq_pidb = pidb }) rung h.at_dev
        (update_self m.qps qp (some (record q { sq_pidb = pidb })))) [
          | inl (m', run) ↦ (m', inr (in_loop fits room fuel m' run))
          | inr (m', q', run, at_qp', _, stop) ↦
              let positive : slt32 q'.cq_cidb 0 ≡ false = ground arith in
              (m', inl (after_loop fits room fuel m' q' run at_qp' ∙ rw positive refl))
        ]

  -- If the card never moves the completion head, a batch that fits the queue, ends at an index below
  -- 2^31 and asks for more than the head shows is never done waiting, if the two consumer indices of
  -- the queue pair agree with the head: no number of rounds ends the loop.
  pub rdma_post_batch_send-stuck :
      (fuel : ℕ)
      → batch_size ≤ q.qdepth
      → pidb ≤ q.qdepth
      → pidb < 2 ^ 31
      → q.cq_cidb ≡ q.sq_cidb
      → ((t : List Access) → env.hardware t (head d.axil_ctl qpid) ≡ q.sq_cidb)
      → q.sq_cidb < pidb
      → (m' : Machine) × (rdma_post_batch_send env fuel p qpid batch_size m ≡ out_of_fuel m')
  rdma_post_batch_send-stuck fuel fits room small idle fixed below =
      let q1 = record q { sq_pidb = pidb } in
      let at_qp1 : rung.qps qp ≡ some (at_head env p qpid d qp q1 q.sq_cidb) =
        update_self m.qps qp (some q1) ∙ ap (λ (c : ℕ). some (record q1 { cq_cidb = c })) idle in
      let (m', run) =
        batch_loop-stuck env p qpid d qp fuel q.sq_cidb q.sq_cidb q1 rung fixed below small
          (inl refl) h.at_dev at_qp1 in
      (m', in_loop fits room fuel m' run)
