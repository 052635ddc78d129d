-- ===== src/Tests/Send.antt =====
-- Tests of posting and polling: a card whose completion head is 1, and one whose head stays at 0.
use reco_nic.Prelude.{List, ℕ, ◌≡◌, ◌≢◌, ◌⊎◌, refl, arith, some, [], ◌∷◌, minus_one}
use reco_nic.Machine.Trace.{last_write}
use reco_nic.Machine.{Machine, RdmaQp, ret, out_of_fuel, write}
use reco_nic.Machine.Poll.{after_reads}
use reco_nic.Rdma.Dump.Laws.{OnlyReads}
use reco_nic.Rdma.Send.{poll_cq_cidb, rdma_post_send, rdma_post_batch_send}
use reco_nic.Rdma.Send.Poll.{head, poll_cq_cidb-returns}
use reco_nic.Rdma.Send.Post.{HasQp, Rang, doorbell, rdma_post_send-timeout}
use reco_nic.Rdma.Send.Loop.{Completes}
use reco_nic.Rdma.Send.Batch.{
  rdma_post_batch_send-Completes, rdma_post_batch_send-never_fails, rdma_post_batch_send-stuck,
}
use reco_nic.Rdma.Send.Session.{post_sends, Reported, post_sends-indices}
use reco_nic.Tests.{card, machine, rdma_device, queue_pair}

abbrev m0 : Machine
m0 = machine 0x10000

m0-HasQp : HasQp m0 1 1 rdma_device 2 queue_pair
m0-HasQp = record { real = omega arith; at_dev = refl; at_pointer = refl; at_qp = refl }

poll_cq_cidb-returns_example :
    (v : ℕ) × (m' : Machine) × (poll_cq_cidb (card 1) 1 1 0 m0 ≡ ret v m')
    × ((v ≡ minus_one) ⊎ (v ≢ 0))
    × OnlyReads m0 m'
poll_cq_cidb-returns_example = poll_cq_cidb-returns (card 1) m0 1 1 0 rdma_device refl

rdma_post_send-timeout_example :
    (m' : Machine) × (rdma_post_send (card 0) 1 1 m0 ≡ ret minus_one m')
    × (m'.qps 2 ≡ some (record queue_pair { sq_pidb = 1; sq_cidb = 1; cq_cidb = minus_one }))
    × Rang m0 m' 0x1000 1 1
rdma_post_send-timeout_example =
    rdma_post_send-timeout (card 0) m0 1 1 rdma_device 2 queue_pair m0-HasQp (λ i p. refl)

post_sends-indices_example :
    (rs : List ℕ) × (m' : Machine) × (q' : RdmaQp) × (post_sends (card 0) 1 1 3 m0 ≡ ret rs m')
    × Reported 3 rs
    × (m'.qps 2 ≡ some q')
    × (q'.sq_pidb ≡ 3)
    × (q'.sq_cidb ≡ 3)
    × (last_write m'.bus (doorbell 0x1000 1) ≡ some 3)
post_sends-indices_example = post_sends-indices (card 0) 1 1 rdma_device 2 2 m0 queue_pair m0-HasQp

rdma_post_batch_send-Completes_example :
    (m' : Machine) × (rdma_post_batch_send (card 1) 2 1 1 1 m0 ≡ ret 0 m')
    × (m'.qps 2 ≡ some (record queue_pair { sq_pidb = 1; sq_cidb = 1; cq_cidb = 1 }))
    × (m' ≡ record m0 {
      bus = after_reads (λ t a. 1) (head 0x1000 1) 1 (write (doorbell 0x1000 1) 1 ∷ []);
      qps = m'.qps;
    })
rdma_post_batch_send-Completes_example =
    rdma_post_batch_send-Completes (card 1) m0 1 1 rdma_device 2 queue_pair m0-HasQp 1 2 1 1
      (after_reads (λ t a. 1) (head 0x1000 1) 1 (write (doorbell 0x1000 1) 1 ∷ [])) (omega arith)
      (omega arith) refl
      (Completes.shown 0 refl (omega arith) (λ i p. absurd (omega arith)) (omega arith)
        (Completes.finished refl))
      refl (omega arith)

rdma_post_batch_send-never_fails_example :
    (m' : Machine) × ((rdma_post_batch_send (card 0) 9 1 1 1 m0 ≡ ret 0 m')
      ⊎ (rdma_post_batch_send (card 0) 9 1 1 1 m0 ≡ out_of_fuel m'))
rdma_post_batch_send-never_fails_example =
    rdma_post_batch_send-never_fails (card 0) m0 1 1 rdma_device 2 queue_pair m0-HasQp 1 9
      (omega arith) (omega arith) (omega arith)

rdma_post_batch_send-stuck_example :
    (m' : Machine) × (rdma_post_batch_send (card 0) 9 1 1 1 m0 ≡ out_of_fuel m')
rdma_post_batch_send-stuck_example =
    rdma_post_batch_send-stuck (card 0) m0 1 1 rdma_device 2 queue_pair m0-HasQp 1 9 (omega arith)
      (omega arith) (omega arith) refl (λ t. refl) (omega arith)
