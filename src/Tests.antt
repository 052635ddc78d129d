-- ===== src/Tests.antt =====
-- The data of the tests: a small machine with one device, one queue pair and its buffers, and a card
-- that answers every read with one word.
mod Address
mod Memory
mod Buffers
mod Device
mod Queues
mod Send
mod Receive
mod Destroy
mod Clock
mod Lookup
mod Domains
mod Benchmark
mod Batches
mod Programs
mod Network
mod Transfer
use Prim.Native.Nat.{min}
use reco_nic.Prelude.{
  ℕ, ◌==◌, if◌then◌else◌, Option, none, some, List, [], ◌∷◌, false, refl, length,
}
use reco_nic.Machine.{
  Machine, Env, FileOp, Ptr, MacAddr, WinSize, RdmaBuff, RnDev, RdmaDev, RdmaGlbCsr, RdmaPd, RdmaQp,
}
use reco_nic.Memory.Content.{load}
use reco_nic.Memory.Device.{IsRegular, replay, transfer_limit}
use reco_nic.Rdma.Device.{unset_csr}

abbrev zeros : ℕ → ℕ
zeros a = 0

-- A system in which every call works.
abbrev card : (answer : ℕ) → Env
card answer = record {
  hardware = λ t a. answer;
  malloc_fails = λ n. false;
  page_size = 4096;
  pagemap_seek_fails = λ p. false;
  pagemap = λ p. some 0x12345;
  open_resource = some 3;
  map_resource = some 0x1000;
  map_hugepages = λ n. 0x7f0000000000;
  mlock_fails = λ a n. false;
  seek = λ t o. some o;
  file_read =
      λ t n. some (load (replay zeros t).content (replay zeros t).position (min n transfer_limit));
  file_write = λ t bs. some (min (length bs) transfer_limit);
  debug_env = false;
}

card-IsRegular : IsRegular (card 0) zeros
card-IsRegular = record { seeks = λ t o. refl; writes = λ t bs. refl; reads = λ t n. refl }

abbrev at {ℓ} : {A : Type ℓ} → Ptr → A → Ptr → Option A
at p a x = if x == p then some a else none

abbrev window : WinSize
window = record { win_size_lsb = 0xffffffff; win_size_msb = 0xff }

abbrev peer : MacAddr
peer = record { mac_lsb = 0x33445566; mac_msb = 0x1122 }

abbrev rn_device : RnDev
rn_device = record {
  axil_ctl = 0x1000;
  axil_map_size = 0x00400000;
  base_buf = 10;
  rdma_dev = 1;
  buffer_offset = 0;
  dev_buffer_offset = 100;
  num_qp = 2;
  win_size = 7;
}

abbrev rdma_device : RdmaDev
rdma_device = record {
  rn_dev = 9;
  glb_csr = 11;
  qps_ptr = 0 ∷ 2 ∷ [];
  axil_ctl = 0x1000;
  num_qp = 2;
  win_size = 7;
}

abbrev domain : RdmaPd
domain = record {
  pd_num = 5;
  virtual_addr_lsb = 0;
  virtual_addr_msb = 0;
  dma_addr_lsb = 0;
  dma_addr_msb = 0;
  r_key = 0;
  buffer_size_lsb = 0;
  buffer_size_msb = 0;
  pd_access_type = 2;
  mr_buffer = 0;
}

abbrev queue_pair : RdmaQp
queue_pair = record {
  rdma_dev = 1;
  qpid = 1;
  sq = 3;
  sq_psn = 0;
  sq_pidb = 0;
  sq_cidb = 0;
  cq = 4;
  cq_cidb_addr = 0;
  cq_cidb = 0;
  rq = 5;
  rq_cidb_addr = 0;
  rq_cidb = 0;
  rq_pidb = 0;
  pd_num = 0;
  pd_entry = 6;
  dst_qpid = 2;
  qdepth = 4;
  last_rq_psn = 0;
  dst_mac = 8;
  dst_ip = 0x0a000002;
}

abbrev buffer_at : (address : ℕ) → RdmaBuff
buffer_at address = record { buffer = address; dma_addr = address; buf_size = 4096 }

-- The send queue at `sq`; the other buffers are in host memory.
abbrev machine : (sq : ℕ) → Machine
machine sq = record {
  bus = [];
  file = [];
  next = 100;
  rn_devs = at 9 rn_device;
  win_sizes = at 7 window;
  buffs = λ x.
      if x == 3
      then some (buffer_at sq)
      else if x == 4
      then some (buffer_at 0x20000)
      else if x == 5
      then some (buffer_at 0x30000)
      else none;
  rdma_devs = at 1 rdma_device;
  glb_csrs = at 11 unset_csr;
  pds = at 6 domain;
  qps = at 2 queue_pair;
  macs = at 8 peer;
  memory = zeros;
}
