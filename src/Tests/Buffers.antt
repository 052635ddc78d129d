-- ===== src/Tests/Buffers.antt =====
-- Tests of buffers and of the creation of a device.
use reco_nic.Prelude.{ℕ, ◌+◌, ◌*◌, ◌^◌, ◌<◌, ◌≤◌, ◌≡◌, refl, arith, some, [], ◌∷◌}
use reco_nic.Machine.{Machine, RnDev, ret, update}
use reco_nic.Reconic.Address.Laws.{bar_window}
use reco_nic.Reconic.Paging.Laws.{physical}
use reco_nic.Reconic.Buffer.{start_offset, allocate_rdma_buffer, host_mem}
use reco_nic.Reconic.Buffer.Offsets.{IsPlace}
use reco_nic.Reconic.Buffer.Host.{allocate_rdma_buffer-host}
use reco_nic.Reconic.Buffer.Laws.{allocate_device_buffers, InRow, allocate_device_buffers-InRow}
use reco_nic.Reconic.Bdf.Laws.{WindowAt}
use reco_nic.Reconic.Create.{create_rn_dev}
use reco_nic.Reconic.Create.Laws.{Works, create_rn_dev-ready}
use reco_nic.Tests.{card, machine, rn_device, at, buffer_at}

abbrev m0 : Machine
m0 = machine 0x10000

-- The machine with the huge pages at 0x7f0000000000, and 4000 bytes of them in use.
abbrev in_use : RnDev
in_use = record rn_device { buffer_offset = 4000 }

abbrev m1 : Machine
m1 = record m0 { rn_devs = at 9 in_use; buffs = at 10 (buffer_at 0x7f0000000000) }

allocate_rdma_buffer-host_example :
    (start : ℕ) × (4000 ≤ start)
    × IsPlace 512 start
    × ((x : ℕ) → 4000 ≤ x → IsPlace 512 x → start ≤ x)
    × (allocate_rdma_buffer (card 0) 9 512 host_mem m1
        ≡ ret 100 (record m1 {
          next = 101;
          rn_devs = update m1.rn_devs 9 (some (record in_use { buffer_offset = start + 512 }));
          buffs = update m1.buffs 100 (
              some (record {
                buffer = 0x7f0000000000 + start;
                dma_addr = physical 0x12345 (0x7f0000000000 + start);
                buf_size = 512;
              }));
        }))
unfolding start_offset
allocate_rdma_buffer-host_example =
    allocate_rdma_buffer-host (card 0) m1 9 in_use (buffer_at 0x7f0000000000) 512 0x12345 refl
      (omega arith) refl refl (omega arith) (omega arith) (omega arith)
      (record { page_size = refl; sought = refl; found = refl; fits = omega arith })

allocate_device_buffers-InRow_example :
    InRow 100 100 m0 (512 ∷ 8192 ∷ []) (allocate_device_buffers (card 0) 9 (512 ∷ 8192 ∷ []) m0)
allocate_device_buffers-InRow_example =
    allocate_device_buffers-InRow (card 0) 9 (512 ∷ 8192 ∷ []) m0 rn_device (λ n. refl)
      (omega arith) refl (omega arith) (omega arith, (omega arith, tt))

works : Works (card 0) 64 3 0x1000 0x12345
works = record {
  enough = λ n. refl;
  opened = refl;
  mapped = refl;
  locked = refl;
  frame = record { page_size = refl; sought = refl; found = refl; fits = omega arith };
}

create_rn_dev-ready_example :
    (m' : Machine) × (rn : RnDev) × (create_rn_dev (card 0) 64 258 m0 ≡ ret (100, 3) m')
    × (m'.rn_devs 100 ≡ some rn)
    × (rn.axil_ctl ≡ 0x1000)
    × (rn.num_qp ≡ 2)
    × (rn.buffer_offset ≡ 0)
    × (rn.dev_buffer_offset ≡ 0)
    × (m'.buffs rn.base_buf
        ≡ some (record { buffer = 0x7f0000000000; dma_addr = 0x12345000; buf_size = 0 }))
    × (m'.win_sizes rn.win_size ≡ some bar_window)
    × ((i : ℕ) → i < 8 → WindowAt 0x1000 m'.bus i (0 + i * 2 ^ 37) (2 ^ 37))
create_rn_dev-ready_example =
    create_rn_dev-ready (card 0) m0 64 258 3 0x1000 0x12345 works (omega arith)
