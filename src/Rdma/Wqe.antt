-- ===== src/Rdma/Wqe.antt =====
-- lib/rdma_api.c, `create_a_wqe`: work queue elements of 64 bytes, and where they are put.
pub mod Codec
pub mod Element
pub mod Laws
pub mod Batch
use reco_nic.Prelude.{
  ℕ, ◌+◌, ◌*◌, ◌/◌, ◌%◌, Option, none, some, List, [], ◌∷◌, ◌++◌, bit_and, if◌then◌else◌, u32, u64,
  shr,
}
use reco_nic.Machine.{
  Machine, Env, Cmd, Ptr, ret, exit_failure, modify, deref, not_null, malloc, ◌>>=◌, ◌>>◌,
}
use reco_nic.Reconic.Address.{is_device_address}
use reco_nic.Memory.{write_from_buffer}
use reco_nic.Memory.Content.{store}
use reco_nic.Rdma.Qp.{qp_pointer}

pub record RdmaWqe : Type 0 where
  pub wrid : ℕ
  pub reserved : ℕ
  pub laddr_low : ℕ
  pub laddr_high : ℕ
  pub length : ℕ
  pub opcode : ℕ
  pub remote_offset_low : ℕ
  pub remote_offset_high : ℕ
  pub r_key : ℕ
  pub send_small_payload0 : ℕ
  pub send_small_payload1 : ℕ
  pub send_small_payload2 : ℕ
  pub send_small_payload3 : ℕ
  pub immdt_data : ℕ
  pub reserved0 : ℕ
  pub reserved1 : ℕ
  pub reserved2 : ℕ

-- `sizeof(struct rdma_wqe_t)`.
abbrev pub wqe_size : ℕ
wqe_size = 64

-- The bytes of a `uint16_t` and of a `uint32_t` in memory, on a little-endian host.
abbrev pub bytes16 : ℕ → List ℕ
bytes16 x = x % 256 ∷ x / 256 % 256 ∷ []

abbrev pub bytes32 : ℕ → List ℕ
bytes32 x = x % 256 ∷ x / 256 % 256 ∷ x / 65536 % 256 ∷ x / 16777216 % 256 ∷ []

-- The struct in memory: its fields in their order, without padding.
unfoldable pub wqe_bytes : RdmaWqe → List ℕ
wqe_bytes e =
    bytes16 e.wrid
    ++ bytes16 e.reserved
    ++ bytes32 e.laddr_low
    ++ bytes32 e.laddr_high
    ++ bytes32 e.length
    ++ bytes32 e.opcode
    ++ bytes32 e.remote_offset_low
    ++ bytes32 e.remote_offset_high
    ++ bytes32 e.r_key
    ++ bytes32 e.send_small_payload0
    ++ bytes32 e.send_small_payload1
    ++ bytes32 e.send_small_payload2
    ++ bytes32 e.send_small_payload3
    ++ bytes32 e.immdt_data
    ++ bytes32 e.reserved0
    ++ bytes32 e.reserved1
    ++ bytes32 e.reserved2

-- What a work request asks for: the parameters of `create_a_wqe` behind `wqe_idx`.
pub record Request : Type 0 where
  pub wrid : ℕ
  pub laddr : ℕ
  pub length : ℕ
  pub opcode : ℕ
  pub remote_offset : ℕ
  pub r_key : ℕ
  pub send_small_payload0 : ℕ
  pub send_small_payload1 : ℕ
  pub send_small_payload2 : ℕ
  pub send_small_payload3 : ℕ
  pub immdt_data : ℕ

-- The element that is filled in.
unfoldable pub new_wqe : (win_size_low win_size_high : ℕ) → Request → RdmaWqe
new_wqe win_size_low win_size_high r =
    let on_card = is_device_address r.laddr in
    let high = u32 (shr (bit_and r.laddr 0xffffffff00000000) 32) in
    let low = u32 (bit_and r.laddr 0x00000000ffffffff) in
    record {
      wrid = r.wrid;
      reserved = 0;
      laddr_low = if on_card then low else bit_and low win_size_low;
      laddr_high = if on_card then high else bit_and high win_size_high;
      length = r.length;
      opcode = bit_and r.opcode 0x000000ff;
      remote_offset_low = u32 (bit_and r.remote_offset 0x00000000ffffffff);
      remote_offset_high = u32 (shr (bit_and r.remote_offset 0xffffffff00000000) 32);
      r_key = r.r_key;
      send_small_payload0 = r.send_small_payload0;
      send_small_payload1 = r.send_small_payload1;
      send_small_payload2 = r.send_small_payload2;
      send_small_payload3 = r.send_small_payload3;
      immdt_data = r.immdt_data;
      reserved0 = 0;
      reserved1 = 0;
      reserved2 = 0;
    }

-- The element goes to the send queue's buffer, or, through an object of its own, to the card. That
-- object is freed before the call returns, so it is only a number here.
unfoldable pub create_a_wqe : Env → (rdma_dev : Ptr) → (qpid wqe_idx : ℕ) → Request → Cmd (Unit {0})
create_a_wqe env rdma_dev qpid wqe_idx r = do
  d ← deref (λ m. m.rdma_devs) rdma_dev
  w ← deref (λ m. m.win_sizes) d.win_size
  let wqe = new_wqe w.win_size_lsb w.win_size_msb r
  qp ← qp_pointer d qpid
  q ← deref (λ m. m.qps) qp
  sq ← deref (λ m. m.buffs) q.sq
  if is_device_address sq.dma_addr
      then (do
        object ← malloc env
        not_null object
        rc ← write_from_buffer env (wqe_bytes wqe) wqe_size (u64 (sq.dma_addr + wqe_idx * wqe_size))
        λ m. elim rc [ none ↦ exit_failure m | some n ↦ ret tt m ])
      else (do
        not_null (u64 (sq.buffer + wqe_idx * wqe_size))
        modify (λ m. record m {
          memory = store m.memory (u64 (sq.buffer + wqe_idx * wqe_size)) (wqe_bytes wqe);
        }))
