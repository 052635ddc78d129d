-- ===== src/Tests/Destroy.antt =====
-- Tests of recovery and destruction, with a card that reports an idle queue pair.
use reco_nic.Prelude.{◌∷◌, [], ◌≡◌, refl, arith, some, none}
use reco_nic.Machine.{Machine, write, ret, fault, update}
use reco_nic.Rdma.Destroy.Fresh.{destroy_rdma_dev-create_rdma_dev}
use reco_nic.Rdma.Device.{create_rdma_dev, unset_csr}
use reco_nic.Rdma.Destroy.{destroy_rdma_dev, destroy_rdma_qp, fatal_status}
use reco_nic.Rdma.Destroy.Laws.{OwnsQueues, destroy_rdma_qp-IsDisabled, destroy_rdma_qp-shared_pd}
use reco_nic.Rdma.Destroy.Disable.{IsDisabled, IsIdle}
use reco_nic.Tests.{rn_device, card, machine, rdma_device, queue_pair, buffer_at, domain}

abbrev m0 : Machine
m0 = machine 0x10000

-- The same machine after the protection domain has been freed.
abbrev m1 : Machine
m1 = record m0 { pds = update m0.pds 6 none }

m0-OwnsQueues : OwnsQueues m0 2 queue_pair rdma_device
m0-OwnsQueues = record {
  real = omega arith;
  at_qp = refl;
  at_dev = refl;
  sq = buffer_at 0x10000;
  rq = buffer_at 0x30000;
  cq = buffer_at 0x20000;
  at_sq = refl;
  at_rq = refl;
  at_cq = refl;
  real_sq = omega arith;
  real_rq = omega arith;
  real_cq = omega arith;
  sq_rq = omega arith;
  sq_cq = omega arith;
  rq_cq = omega arith;
}

m1-OwnsQueues : OwnsQueues m1 2 queue_pair rdma_device
m1-OwnsQueues = record {
  real = omega arith;
  at_qp = refl;
  at_dev = refl;
  sq = buffer_at 0x10000;
  rq = buffer_at 0x30000;
  cq = buffer_at 0x20000;
  at_sq = refl;
  at_rq = refl;
  at_cq = refl;
  real_sq = omega arith;
  real_rq = omega arith;
  real_cq = omega arith;
  sq_rq = omega arith;
  sq_cq = omega arith;
  rq_cq = omega arith;
}

idle : IsIdle (card 0x600) 0x1000 1 m0.bus
unfolding fatal_status
idle = record { status = refl; heads = refl }

destroy_rdma_qp-IsDisabled_example :
    (m' : Machine) × (destroy_rdma_qp (card 0x600) 5 2 m0 ≡ ret 0 m')
    × IsDisabled m'.bus 0x1000 1
    × (m'.buffs 3 ≡ none)
    × (m'.buffs 5 ≡ none)
    × (m'.buffs 4 ≡ none)
    × (m'.pds 6 ≡ none)
destroy_rdma_qp-IsDisabled_example =
    destroy_rdma_qp-IsDisabled (card 0x600) 5 m0 2 queue_pair rdma_device m0-OwnsQueues idle domain
      refl (omega arith) (omega arith) (omega arith)

destroy_rdma_qp-shared_pd_example : destroy_rdma_qp (card 0x600) 5 2 m1 ≡ fault
destroy_rdma_qp-shared_pd_example =
    destroy_rdma_qp-shared_pd (card 0x600) 5 m1 2 queue_pair rdma_device m1-OwnsQueues idle
      (omega arith) refl

destroy_rdma_dev-create_rdma_dev_example :
    (n1 n2 : Machine) × (create_rdma_dev (card 0) 9 m0 ≡ ret 100 n1)
    × (destroy_rdma_dev (card 0) 5 100 n1 ≡ ret 0 n2)
    × (n1.glb_csrs 101 ≡ some unset_csr)
    × (n2.glb_csrs 101 ≡ none)
    × (n2.bus ≡ write 0x61000 0 ∷ [])
destroy_rdma_dev-create_rdma_dev_example =
    destroy_rdma_dev-create_rdma_dev (card 0) 5 m0 9 rn_device (λ n. refl) (omega arith) refl
