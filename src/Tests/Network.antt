-- ===== src/Tests/Network.antt =====
-- A test of the network matrix product: a card that answers each read with the number of the work,
-- and whose memory holds zeros.
use reco_nic.Prelude.{◌+◌, ◌≡◌, ◌⊎◌, ◌↔◌, refl, some, arith, take, u32}
use reco_nic.Machine.{Machine, Env, RdmaBuff, ret}
use reco_nic.Memory.Device.{IsRegular}
use reco_nic.Memory.Content.{load}
use reco_nic.Registers.{rn_clr_ctl_cmd}
use reco_nic.Control.Laws.{written_at, decode}
use reco_nic.Examples.Systolic.Run.{Verdict, passed, failed}
use reco_nic.Examples.Systolic.Verdict.{HoldsProduct}
use reco_nic.Examples.Rdma.Network.{multiply}
use reco_nic.Examples.Rdma.NetworkLaws.{product_command, ordered, multiply-verdict}
use reco_nic.Tests.{card, zeros, machine, rdma_device, buffer_at}
use reco_nic.Tests.Programs.{options, shell, objects}

abbrev kernel : Env
kernel = card 0xdd

kernel-IsRegular : IsRegular kernel zeros
kernel-IsRegular = record { seeks = λ t o. refl; writes = λ t bs. refl; reads = λ t n. refl }

abbrev a : RdmaBuff
a = buffer_at 0xa350000000000000

abbrev b : RdmaBuff
b = buffer_at 0xa350000000000400

abbrev c : RdmaBuff
c = buffer_at 0xa350000000000800

abbrev m0 : Machine
m0 = machine 0x10000

multiply-verdict_example :
    (decode (
        take 6 (
          written_at (0x1000 + rn_clr_ctl_cmd) (
            ordered kernel zeros kernel-IsRegular shell options objects m0 rdma_device a b c refl)))
      ≡ some (product_command a b c))
    × (v : Verdict) × (m' : Machine) × (multiply kernel shell options objects 1 a b c m0
        ≡ ret (some v) m')
    × ((v ≡ passed) ⊎ (v ≡ failed))
    × ((v ≡ passed) ↔ (HoldsProduct (load zeros 0x800 1024) × (u32 0xdd ≡ 0xdd)))
multiply-verdict_example =
    multiply-verdict kernel zeros kernel-IsRegular shell options objects m0 rdma_device a b c refl 0
      1 (omega arith) (λ i p. absurd (omega arith)) (omega arith)
