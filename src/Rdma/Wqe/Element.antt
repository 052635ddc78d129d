-- ===== src/Rdma/Wqe/Element.antt =====
-- lib/rdma_api.c, `create_a_wqe`: the element asks for what its parameters say.
use reco_nic.Prelude.{
  ℕ, ◌+◌, ◌*◌, ◌/◌, ◌%◌, ◌^◌, ◌≤◌, ◌<◌, ◌≡◌, refl, sym, ap, ◌∙◌, ◌⊎◌, arith, bit_and, length, u32,
  shr,
}
use reco_nic.Bits.{and_low, and_field}
use reco_nic.Rdma.Device.Writes.{card_address}
use reco_nic.Memory.Content.{store, load, load-store, store_outside}
use reco_nic.Rdma.Wqe.{RdmaWqe, Request, new_wqe, wqe_bytes, wqe_size}
use reco_nic.Rdma.Wqe.Codec.{IsWqe, wqe_of_bytes, wqe_of_bytes-wqe_bytes}

-- The parameters fit their types.
pub record IsRequest (r : Request) : Type 0 where
  pub wrid : r.wrid < 2 ^ 16
  pub laddr : r.laddr < 2 ^ 64
  pub length : r.length < 2 ^ 32
  pub remote_offset : r.remote_offset < 2 ^ 64
  pub r_key : r.r_key < 2 ^ 32
  pub send_small_payload0 : r.send_small_payload0 < 2 ^ 32
  pub send_small_payload1 : r.send_small_payload1 < 2 ^ 32
  pub send_small_payload2 : r.send_small_payload2 < 2 ^ 32
  pub send_small_payload3 : r.send_small_payload3 < 2 ^ 32
  pub immdt_data : r.immdt_data < 2 ^ 32

-- The element asks the card for what the request says.
pub record Asks (e : RdmaWqe) (r : Request) : Type 0 where
  pub wrid : e.wrid ≡ r.wrid
  pub reserved : e.reserved ≡ 0
  pub laddr : e.laddr_high * 2 ^ 32 + e.laddr_low ≡ card_address r.laddr
  pub length : e.length ≡ r.length
  pub opcode : e.opcode ≡ r.opcode % 256
  pub remote_offset : e.remote_offset_high * 2 ^ 32 + e.remote_offset_low ≡ r.remote_offset
  pub r_key : e.r_key ≡ r.r_key
  pub send_small_payload0 : e.send_small_payload0 ≡ r.send_small_payload0
  pub send_small_payload1 : e.send_small_payload1 ≡ r.send_small_payload1
  pub send_small_payload2 : e.send_small_payload2 ≡ r.send_small_payload2
  pub send_small_payload3 : e.send_small_payload3 ≡ r.send_small_payload3
  pub immdt_data : e.immdt_data ≡ r.immdt_data
  pub reserved0 : e.reserved0 ≡ 0
  pub reserved1 : e.reserved1 ≡ 0
  pub reserved2 : e.reserved2 ≡ 0

module _ (r : Request) (fits : IsRequest r) where
  abbrev pub element : RdmaWqe
  element = new_wqe 0xffffffff 0xff r

  pub high_half : (v : ℕ) → v < 2 ^ 64 → u32 (shr (bit_and v 0xffffffff00000000) 32) ≡ v / 2 ^ 32
  high_half v h = ground (arith, and_field 32 32 v)

  pub low_half : (v : ℕ) → u32 (bit_and v 0xffffffff) ≡ v % 2 ^ 32
  low_half v = ground (arith, and_low 32 v)

  pub laddr_words : element.laddr_high * 2 ^ 32 + element.laddr_low ≡ card_address r.laddr
  unfolding new_wqe
  laddr_words = ground (
    arith,
    fits.laddr,
    high_half r.laddr fits.laddr,
    low_half r.laddr,
    and_low 32 (r.laddr % 2 ^ 32),
    and_low 8 (r.laddr / 2 ^ 32),
  )

  pub remote_words :
      element.remote_offset_high * 2 ^ 32 + element.remote_offset_low ≡ r.remote_offset
  unfolding new_wqe
  remote_words =
      omega (arith, high_half r.remote_offset fits.remote_offset, low_half r.remote_offset)

  pub new_wqe-Asks : Asks element r
  unfolding new_wqe
  new_wqe-Asks = record {
    wrid = refl;
    reserved = refl;
    laddr = laddr_words;
    length = refl;
    opcode = and_low 8 r.opcode;
    remote_offset = remote_words;
    r_key = refl;
    send_small_payload0 = refl;
    send_small_payload1 = refl;
    send_small_payload2 = refl;
    send_small_payload3 = refl;
    immdt_data = refl;
    reserved0 = refl;
    reserved1 = refl;
    reserved2 = refl;
  }

  pub element_fits : IsWqe element
  unfolding new_wqe
  element_fits = record {
    wrid = fits.wrid;
    reserved = omega arith;
    laddr_low = ground (arith, and_low 32 (u32 (bit_and r.laddr 0xffffffff)));
    laddr_high = ground (arith, and_low 8 (u32 (shr (bit_and r.laddr 0xffffffff00000000) 32)));
    length = fits.length;
    opcode = omega (arith, and_low 8 r.opcode);
    remote_offset_low = omega arith;
    remote_offset_high = omega arith;
    r_key = fits.r_key;
    send_small_payload0 = fits.send_small_payload0;
    send_small_payload1 = fits.send_small_payload1;
    send_small_payload2 = fits.send_small_payload2;
    send_small_payload3 = fits.send_small_payload3;
    immdt_data = fits.immdt_data;
    reserved0 = omega arith;
    reserved1 = omega arith;
    reserved2 = omega arith;
  }

  pub wqe_of_bytes-Asks : Asks (wqe_of_bytes (wqe_bytes element)) r
  wqe_of_bytes-Asks = rw (wqe_of_bytes-wqe_bytes element element_fits) new_wqe-Asks

pub length-wqe_bytes : (e : RdmaWqe) → length (wqe_bytes e) ≡ wqe_size
unfolding wqe_bytes
length-wqe_bytes e = refl

-- A memory in which the 64 bytes from `slot` on are an element that asks for what `r` says, and
-- which is otherwise `old`.
pub record Posted (old new : ℕ → ℕ) (slot : ℕ) (r : Request) : Type 0 where
  pub element : Asks (wqe_of_bytes (load new slot wqe_size)) r
  pub elsewhere : (a : ℕ) → (a < slot) ⊎ (slot + wqe_size ≤ a) → new a ≡ old a

pub store-Posted :
    (old : ℕ → ℕ) (slot : ℕ) (r : Request)
    → IsRequest r
    → Posted old (store old slot (wqe_bytes (new_wqe 0xffffffff 0xff r))) slot r
store-Posted old slot r fits =
    let bs = wqe_bytes (new_wqe 0xffffffff 0xff r) in
    let back : load (store old slot bs) slot wqe_size ≡ bs =
      ap (λ (n : ℕ). load (store old slot bs) slot n)
        (sym (length-wqe_bytes (new_wqe 0xffffffff 0xff r)))
      ∙ load-store old slot bs in
    record {
      element = rw back (wqe_of_bytes-Asks r fits);
      elsewhere = λ a out.
          store_outside old slot bs a (rw (length-wqe_bytes (new_wqe 0xffffffff 0xff r)) out);
    }
