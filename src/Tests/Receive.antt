-- ===== src/Tests/Receive.antt =====
-- A test of the receive side, with a card whose producer index is 1.
use reco_nic.Prelude.{ℕ, ◌+◌, ◌*◌, ◌<◌, ◌≡◌, ◌⊎◌, refl, arith}
use reco_nic.Machine.{Machine, ret}
use reco_nic.Rdma.Receive.{rdma_post_receive}
use reco_nic.Rdma.Receive.Laws.{rdma_post_receive-element}
use reco_nic.Rdma.Send.Post.{HasQp}
use reco_nic.Tests.{card, machine, rdma_device, queue_pair, buffer_at}

abbrev m0 : Machine
m0 = machine 0x10000

m0-HasQp : HasQp m0 1 1 rdma_device 2 queue_pair
m0-HasQp = record { real = omega arith; at_dev = refl; at_pointer = refl; at_qp = refl }

rdma_post_receive-element_example :
    (slot : ℕ) × (m' : Machine) × (rdma_post_receive (card 1) 3 1 2 m0
      ≡ ret (0x30000 + slot * 512) m')
    × (slot < 4)
    × (((0 + 1 ≡ 0) × (slot + 1 ≡ 4)) ⊎ (0 + 1 ≡ slot + 1))
rdma_post_receive-element_example =
    rdma_post_receive-element (card 1) m0 1 rdma_device 2 queue_pair m0-HasQp 0 3
      (buffer_at 0x30000) refl (λ i p. absurd (omega arith)) (omega arith) (omega arith)
      (omega arith) refl (omega arith) (omega arith) (omega arith) (omega arith)
