-- ===== src/Tests/Queues.antt =====
-- A test of the allocation of a queue pair in device memory: the three queues are at the offsets
-- 100, 612 and 4096. Then the queue pair is posted on, and the registers are dumped.
use reco_nic.Prelude.{ℕ, ◌+◌, ◌<◌, ◌≤◌, ◌≡◌, ◌⊎◌, refl, ap, arith, some, none, [], ◌∷◌}
use reco_nic.Machine.{Machine, RdmaDev, RdmaQp, ret}
use reco_nic.Machine.Trace.{last_write}
use reco_nic.Reconic.Buffer.{start_offset, device_mem}
use reco_nic.Rdma.Qp.{QpArgs, new_qp, allocate_rdma_qp}
use reco_nic.Rdma.Qp.Registers.{IsConfigured, IsConnected}
use reco_nic.Rdma.Qp.Allocate.{
  device_buffer, configured, IsAllocatable, allocate_rdma_qp-run, allocate_rdma_qp-IsConfigured,
}
use reco_nic.Rdma.Dump.{dump_registers}
use reco_nic.Rdma.Dump.Laws.{OnlyReads, dump_registers-OnlyReads}
use reco_nic.Rdma.Send.{rdma_post_send}
use reco_nic.Rdma.Send.Post.{HasQp, rdma_post_send-returns}
use reco_nic.Rdma.Lifecycle.{begin, then_step, post, dump, InSync}
use reco_nic.Rdma.Lifecycle.Create.{allocate_rdma_qp-InSync}
use reco_nic.Tests.{card, machine, rdma_device, rn_device, domain, peer}

abbrev m0 : Machine
m0 = machine 0x10000

abbrev connection : QpArgs
connection = record {
  qpid = 1;
  dst_qpid = 2;
  pd_entry = 6;
  cq_cidb_addr = 0xa350000000400000;
  rq_cidb_addr = 0xa350000000400100;
  qdepth = 4;
  dst_mac = 8;
  dst_ip = 0x0a000002;
  partion_key = 0x1234;
}

allocate_rdma_qp-IsConfigured_example :
    (m' : Machine) × (allocate_rdma_qp (card 0) 1 device_mem connection m0 ≡ ret 100 m')
    × (q : RdmaQp) × (m'.qps 100 ≡ some q)
    × IsConnected q 1 101 102 103 connection
    × (m'.buffs 101 ≡ some (device_buffer 100 512))
    × (m'.buffs 102 ≡ some (device_buffer 612 32))
    × (m'.buffs 103 ≡ some (device_buffer 4096 4096))
    × (m'.rdma_devs 1 ≡ some (record rdma_device { qps_ptr = 0 ∷ 100 ∷ [] }))
    × IsConfigured 0x1000 m'.bus connection peer
        (device_buffer 100 512)
        (device_buffer 612 32)
        (device_buffer 4096 4096)
        5
    × ((r : ℕ) → (r < 0x1000 + 0x60200) ⊎ (0x1000 + 0x60300 ≤ r) → last_write m'.bus r ≡ none)
unfolding start_offset
allocate_rdma_qp-IsConfigured_example =
    allocate_rdma_qp-IsConfigured (card 0) 1 m0 rdma_device rn_device connection (λ k. refl)
      (omega arith) refl refl (omega arith) (omega arith) peer domain (omega arith) refl refl refl
      (record {
        numbered = omega arith;
        qpid = omega arith;
        dst_ip = omega arith;
        dst_qpid = omega arith;
        qdepth = omega arith;
        mac_lsb = omega arith;
        mac_msb = omega arith;
        sq_addr = omega arith;
        cq_addr = omega arith;
        rq_addr = omega arith;
        cq_cidb_addr = omega arith;
        rq_cidb_addr = omega arith;
        domain = omega arith;
      })

abbrev wide :
    IsAllocatable
      (card 0)
      1
      m0
      rdma_device
      rn_device
      connection
      (λ k. refl)
      (omega arith)
      refl
      refl
      (omega arith)
      (omega arith)
      peer
      domain
unfolding start_offset
wide = record {
  numbered = omega arith;
  qpid = omega arith;
  dst_ip = omega arith;
  dst_qpid = omega arith;
  qdepth = omega arith;
  mac_lsb = omega arith;
  mac_msb = omega arith;
  sq_addr = omega arith;
  cq_addr = omega arith;
  rq_addr = omega arith;
  cq_cidb_addr = omega arith;
  rq_cidb_addr = omega arith;
  domain = omega arith;
}

-- The machine with the new queue pair.
abbrev m1 : Machine
m1 =
    configured (card 0) 1 m0 rdma_device rn_device connection (λ k. refl) (omega arith) refl refl
      (omega arith) (omega arith) peer domain

abbrev device : RdmaDev
device = record rdma_device { qps_ptr = 0 ∷ 100 ∷ [] }

m1-HasQp : HasQp m1 1 1 device 100 (new_qp 1 101 102 103 connection)
m1-HasQp = record { real = omega arith; at_dev = refl; at_pointer = refl; at_qp = refl }

-- A post, and a dump behind it.
one_post :
    (r v : ℕ) × (m' : Machine) × (rdma_post_send (card 0) 1 1 m1 ≡ ret r m')
    × (m'.rdma_devs 1 ≡ some device)
one_post =
    let (r, v, m', run, _, _, _, frame) =
      rdma_post_send-returns (card 0) m1 1 1 device 100 (new_qp 1 101 102 103 connection)
        m1-HasQp in
    (r, v, m', run, ap (λ (x : Machine). x.rdma_devs 1) frame)

abbrev m2 : Machine
m2 = one_post.2

one_dump : (m' : Machine) × (dump_registers (card 0) 1 1 1 m2 ≡ ret tt m') × OnlyReads m2 m'
one_dump = dump_registers-OnlyReads (card 0) m2 1 1 1 device one_post.4

allocate_rdma_qp-InSync_example : InSync 1 1 device 100 one_dump.0
allocate_rdma_qp-InSync_example =
    allocate_rdma_qp-InSync (card 0) 1 m0 rdma_device rn_device connection (λ k. refl) (omega arith)
      (omega arith) refl refl (omega arith) (omega arith) peer domain (omega arith) refl refl refl
      wide 100 m1 one_dump.0 refl
      (allocate_rdma_qp-run (card 0) 1 m0 rdma_device rn_device connection (λ k. refl) (omega arith)
        refl refl (omega arith) (omega arith) peer domain (omega arith) refl refl refl wide)
      (then_step m1 m2 one_dump.0 (then_step m1 m1 m2 (begin m1) (post m1 m2 one_post.0 one_post.3))
        (dump m2 one_dump.0 1 1 one_dump.1))
