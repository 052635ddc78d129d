-- ===== src/Rdma/Wqe/Codec.antt =====
-- Reading a work queue element back from its 64 bytes.
use reco_nic.Prelude.{ℕ, ◌+◌, ◌*◌, ◌/◌, ◌%◌, ◌^◌, ◌<◌, ◌≡◌, List, arith, get_or}
use reco_nic.Rdma.Wqe.{RdmaWqe, wqe_bytes}

abbrev word16 : List ℕ → ℕ → ℕ
word16 bs k = get_or bs k 0 + 256 * get_or bs (k + 1) 0

abbrev word32 : List ℕ → ℕ → ℕ
word32 bs k = word16 bs k + 65536 * word16 bs (k + 2)

-- The element as the card's layout of its 64 bytes says: words of 32 bits, low byte first.
unfoldable pub wqe_of_bytes : List ℕ → RdmaWqe
wqe_of_bytes bs = record {
  wrid = word16 bs 0;
  reserved = word16 bs 2;
  laddr_low = word32 bs 4;
  laddr_high = word32 bs 8;
  length = word32 bs 12;
  opcode = word32 bs 16;
  remote_offset_low = word32 bs 20;
  remote_offset_high = word32 bs 24;
  r_key = word32 bs 28;
  send_small_payload0 = word32 bs 32;
  send_small_payload1 = word32 bs 36;
  send_small_payload2 = word32 bs 40;
  send_small_payload3 = word32 bs 44;
  immdt_data = word32 bs 48;
  reserved0 = word32 bs 52;
  reserved1 = word32 bs 56;
  reserved2 = word32 bs 60;
}

-- Every field fits its type.
pub record IsWqe (e : RdmaWqe) : Type 0 where
  pub wrid : e.wrid < 2 ^ 16
  pub reserved : e.reserved < 2 ^ 16
  pub laddr_low : e.laddr_low < 2 ^ 32
  pub laddr_high : e.laddr_high < 2 ^ 32
  pub length : e.length < 2 ^ 32
  pub opcode : e.opcode < 2 ^ 32
  pub remote_offset_low : e.remote_offset_low < 2 ^ 32
  pub remote_offset_high : e.remote_offset_high < 2 ^ 32
  pub r_key : e.r_key < 2 ^ 32
  pub send_small_payload0 : e.send_small_payload0 < 2 ^ 32
  pub send_small_payload1 : e.send_small_payload1 < 2 ^ 32
  pub send_small_payload2 : e.send_small_payload2 < 2 ^ 32
  pub send_small_payload3 : e.send_small_payload3 < 2 ^ 32
  pub immdt_data : e.immdt_data < 2 ^ 32
  pub reserved0 : e.reserved0 < 2 ^ 32
  pub reserved1 : e.reserved1 < 2 ^ 32
  pub reserved2 : e.reserved2 < 2 ^ 32

word16-bytes16 : (x : ℕ) → x < 2 ^ 16 → x % 256 + 256 * (x / 256 % 256) ≡ x
word16-bytes16 x h = omega arith

word32-bytes32 :
    (x : ℕ)
    → x < 2 ^ 32
    → (x % 256 + 256 * (x / 256 % 256)) + 65536 * (x / 65536 % 256 + 256 * (x / 16777216 % 256)) ≡ x
word32-bytes32 x h = omega arith

-- Encoding and decoding a work queue element is a round trip.
pub wqe_of_bytes-wqe_bytes : (e : RdmaWqe) → IsWqe e → wqe_of_bytes (wqe_bytes e) ≡ e
unfolding wqe_of_bytes wqe_bytes
wqe_of_bytes-wqe_bytes e h = simp (
  word16-bytes16 e.wrid h.wrid,
  word16-bytes16 e.reserved h.reserved,
  word32-bytes32 e.laddr_low h.laddr_low,
  word32-bytes32 e.laddr_high h.laddr_high,
  word32-bytes32 e.length h.length,
  word32-bytes32 e.opcode h.opcode,
  word32-bytes32 e.remote_offset_low h.remote_offset_low,
  word32-bytes32 e.remote_offset_high h.remote_offset_high,
  word32-bytes32 e.r_key h.r_key,
  word32-bytes32 e.send_small_payload0 h.send_small_payload0,
  word32-bytes32 e.send_small_payload1 h.send_small_payload1,
  word32-bytes32 e.send_small_payload2 h.send_small_payload2,
  word32-bytes32 e.send_small_payload3 h.send_small_payload3,
  word32-bytes32 e.immdt_data h.immdt_data,
  word32-bytes32 e.reserved0 h.reserved0,
  word32-bytes32 e.reserved1 h.reserved1,
  word32-bytes32 e.reserved2 h.reserved2,
)
