-- ===== src/Tests/Device.antt =====
-- A test of opening a device.
use reco_nic.Prelude.{ℕ, ◌+◌, ◌<◌, ◌≤◌, ◌≡◌, ◌⊎◌, refl, arith, none}
use reco_nic.Machine.{Machine, ret}
use reco_nic.Machine.Trace.{last_write}
use reco_nic.Rdma.Device.{DevBuffers, open_rdma_dev, unset_csr}
use reco_nic.Rdma.Device.Laws.{IsOpen, open_rdma_dev-IsOpen}
use reco_nic.Tests.{machine, rdma_device, peer}

abbrev m0 : Machine
m0 = machine 0x10000

abbrev buffers : DevBuffers
buffers = record {
  num_data_buf = 16;
  per_data_buf_size = 4096;
  data_buf_baseaddr = 0xa350000000100000;
  ipkt_err_stat_q_size = 8192;
  ipkt_err_stat_q_baseaddr = 0xa350000000200000;
  num_err_buf = 8;
  per_err_buf_size = 4096;
  err_buf_baseaddr = 0x123456789abc000;
  resp_err_pkt_buf_size = 65536;
  resp_err_pkt_buf_baseaddr = 0xa350000000300000;
}

open_rdma_dev-IsOpen_example :
    (m' : Machine) × (open_rdma_dev 1 peer 0x0a000001 0x12b7 buffers m0 ≡ ret tt m')
    × IsOpen 0x1000 m'.bus peer 0x0a000001 0x12b7 2 buffers
    × ((a : ℕ) → (a < 0x1000 + 0x60000) ⊎ (0x1000 + 0x60200 ≤ a) → last_write m'.bus a ≡ none)
open_rdma_dev-IsOpen_example =
    open_rdma_dev-IsOpen m0 1 rdma_device unset_csr peer 0x0a000001 0x12b7 buffers refl refl refl
      (record {
        num_data_buf = omega arith;
        per_data_buf_size = omega arith;
        data_buf_baseaddr = omega arith;
        ipkt_err_stat_q_size = omega arith;
        ipkt_err_stat_q_baseaddr = omega arith;
        num_err_buf = omega arith;
        per_err_buf_size = omega arith;
        err_buf_baseaddr = omega arith;
        resp_err_pkt_buf_size = omega arith;
        resp_err_pkt_buf_baseaddr = omega arith;
        mac_lsb = omega arith;
        mac_msb = omega arith;
        address = omega arith;
      })
