-- ===== src/Tests/Memory.antt =====
-- Tests of the transfers to and from the card's memory, and of work queue elements.
use reco_nic.Prelude.{ℕ, ◌<◌, ◌≤◌, ◌≡◌, refl, arith, some, [], ◌∷◌, List}
use reco_nic.Machine.{Machine, ret}
use reco_nic.Memory.{write_from_buffer, read_to_buffer}
use reco_nic.Memory.Content.{store}
use reco_nic.Memory.Device.{replay}
use reco_nic.Memory.Laws.{write_from_buffer-store}
use reco_nic.Memory.Read.{read_to_buffer-write_from_buffer}
use reco_nic.Rdma.Wqe.{Request, create_a_wqe}
use reco_nic.Rdma.Wqe.Laws.{HasQueue, create_a_wqe-host, create_a_wqe-device}
use reco_nic.Rdma.Wqe.Element.{IsRequest, Posted}
use reco_nic.Rdma.Wqe.Batch.{create_wqes, AskInOrder, create_wqes-AskInOrder}
use reco_nic.Reconic.Address.{is_device_address}
use reco_nic.Tests.{card, card-IsRegular, zeros, machine, rdma_device, queue_pair, buffer_at}

abbrev bytes : List ℕ
bytes = 10 ∷ 20 ∷ 30 ∷ []

write_from_buffer-store_example :
    (m' : Machine) × (write_from_buffer (card 0) bytes 3 0xa350000000001000 (machine 0x10000)
      ≡ ret (some 3) m')
    × ((replay zeros m'.file).content ≡ store zeros 0x1000 bytes)
    × (m' ≡ record (machine 0x10000) { file = m'.file })
write_from_buffer-store_example =
    write_from_buffer-store (card 0) zeros bytes 0xa350000000001000 (machine 0x10000) card-IsRegular

read_to_buffer-write_from_buffer_example :
    (m1 m2 : Machine) × (write_from_buffer (card 0) bytes 3 0xa350000000001000 (machine 0x10000)
      ≡ ret (some 3) m1)
    × (read_to_buffer (card 0) 3 0xa350000000001000 m1 ≡ ret (some 3, bytes) m2)
read_to_buffer-write_from_buffer_example =
    read_to_buffer-write_from_buffer (card 0) zeros bytes 0xa350000000001000 (machine 0x10000)
      card-IsRegular

abbrev request : Request
request = record {
  wrid = 1;
  laddr = 0x123456789abc;
  length = 64;
  opcode = 0x102;
  remote_offset = 0x10;
  r_key = 8;
  send_small_payload0 = 0;
  send_small_payload1 = 0;
  send_small_payload2 = 0;
  send_small_payload3 = 0;
  immdt_data = 0;
}

request-IsRequest : IsRequest request
request-IsRequest = record {
  wrid = omega arith;
  laddr = omega arith;
  length = omega arith;
  remote_offset = omega arith;
  r_key = omega arith;
  send_small_payload0 = omega arith;
  send_small_payload1 = omega arith;
  send_small_payload2 = omega arith;
  send_small_payload3 = omega arith;
  immdt_data = omega arith;
}

has_queue : (sq : ℕ) → HasQueue (machine sq) 1 1 (buffer_at sq)
has_queue sq = record {
  d = rdma_device;
  qp = 2;
  q = queue_pair;
  at_dev = refl;
  at_window = refl;
  at_pointer = refl;
  at_qp = refl;
  at_sq = refl;
}

create_a_wqe-host_example :
    (m' : Machine) × (create_a_wqe (card 0) 1 1 2 request (machine 0x10000) ≡ ret tt m')
    × Posted zeros m'.memory 0x10080 request
    × (m' ≡ record (machine 0x10000) { memory = m'.memory })
unfolding is_device_address
create_a_wqe-host_example =
    create_a_wqe-host (card 0) (machine 0x10000) 1 1 2 request (buffer_at 0x10000)
      (has_queue 0x10000) request-IsRequest refl (omega arith) (omega arith)

create_a_wqe-device_example :
    let m = machine 0xa350000000001000 in
    (m' : Machine) × (create_a_wqe (card 0) 1 1 2 request m ≡ ret tt m')
    × Posted zeros (replay zeros m'.file).content 0x1080 request
    × (m' ≡ record m { file = m'.file; next = 101 })
unfolding is_device_address
create_a_wqe-device_example =
    create_a_wqe-device (card 0) zeros (machine 0xa350000000001000) 1 1 2 request
      (buffer_at 0xa350000000001000) card-IsRegular (has_queue 0xa350000000001000) request-IsRequest
      refl refl (omega arith)

create_wqes-AskInOrder_example :
    (m' : Machine) × (create_wqes (card 0) 1 1 2 (request ∷ request ∷ []) (machine 0x10000)
      ≡ ret tt m')
    × AskInOrder m'.memory 0x10080 (request ∷ request ∷ [])
    × ((a : ℕ) → a < 0x10080 → m'.memory a ≡ 0)
    × ((a : ℕ) → 0x10100 ≤ a → m'.memory a ≡ 0)
    × (m' ≡ record (machine 0x10000) { memory = m'.memory })
unfolding is_device_address
create_wqes-AskInOrder_example =
    create_wqes-AskInOrder (card 0) 1 1 (buffer_at 0x10000) (request ∷ request ∷ []) 2
      (machine 0x10000) (has_queue 0x10000) (request-IsRequest, (request-IsRequest, tt)) refl
      (omega arith) (omega arith)
