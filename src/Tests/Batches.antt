-- ===== src/Tests/Batches.antt =====
-- A test of the batch clients, with three elements of four bytes each.
use reco_nic.Prelude.{ℕ, ◌≡◌, refl, some, List, [], ◌∷◌, true, arith}
use reco_nic.Machine.{Machine, ret}
use reco_nic.Memory.Content.{store}
use reco_nic.Memory.Device.{replay}
use reco_nic.Registers.{rnic_op_write, rnic_op_read}
use reco_nic.Reconic.Address.{is_device_address}
use reco_nic.Reconic.Buffer.{start_offset}
use reco_nic.Examples.Rdma.Setup.{Options}
use reco_nic.Examples.Rdma.Batches.{write_batch_create, read_batch_create}
use reco_nic.Examples.Rdma.BatchElements.{AllAsk}
use reco_nic.Examples.Rdma.BatchLaws.{batch_clients-same}
use reco_nic.Examples.Rdma.Client.{transfer}
use reco_nic.Examples.Rdma.WriteLaws.{IsSetUp}
use reco_nic.Tests.{card, card-IsRegular, zeros, rn_device, buffer_at}
use reco_nic.Tests.Programs.{m0, options, shell, objects, m0-HasQueue, place}

abbrev three : Options
three = record options { wqe_count = 3 }

abbrev golden : List ℕ
golden = 1 ∷ 0 ∷ 0 ∷ 0 ∷ 2 ∷ 0 ∷ 0 ∷ 0 ∷ 3 ∷ 0 ∷ 0 ∷ 0 ∷ []

unfoldable set_up : IsSetUp m0 objects 12 (buffer_at 0x10000)
unfolding is_device_address start_offset
set_up = record {
  rn = rn_device;
  at_rn = refl;
  points = refl;
  low = omega arith;
  small = omega arith;
  room = omega arith;
  fresh = omega arith;
  queue = m0-HasQueue;
  old = omega arith;
  real = omega arith;
  host = refl;
  at = omega arith;
  fits = omega arith;
}

batch_clients-same_example :
    ((m' : Machine) × (write_batch_create (card 0) shell three objects golden 0xa350000000001000 m0
        ≡ ret true m')
      × (m'.buffs 100 ≡ some (record { buffer = place; dma_addr = place; buf_size = 12 }))
      × ((replay zeros m'.file).content ≡ store zeros 100 golden)
      × AllAsk m'.memory 0x10000 3 (transfer place 4 rnic_op_write 0xa350000000001000 8))
    × ((m' : Machine) × (read_batch_create (card 0) shell three objects golden 0xa350000000001000 m0
          ≡ ret tt m')
        × (m'.buffs 100 ≡ some (record { buffer = place; dma_addr = place; buf_size = 12 }))
        × AllAsk m'.memory 0x10000 3 (transfer place 4 rnic_op_read 0xa350000000001000 8))
unfolding start_offset set_up
batch_clients-same_example =
    batch_clients-same (card 0) zeros shell three objects golden (buffer_at 0x10000) m0
      card-IsRegular (λ n. refl) set_up refl 0xa350000000001000 (omega arith) (omega arith)
      (omega arith)
