-- ===== src/Tests/Transfer.antt =====
-- A test of read.c from the offer to the check, with a read of the cards that is a write to the
-- client's card.
use reco_nic.Prelude.{
  ap, ap₂, Option, sym, ◌∙◌, take_all, ◌+◌, ◌*◌, ◌%◌, ◌^◌, ℕ, ◌≡◌, refl, none, some, List, ◌∷◌,
  true, arith,
}
use reco_nic.Machine.{Machine, Access, RdmaBuff, seek, file_write, ret}
use reco_nic.Machine.Trace.{last_write}
use reco_nic.Memory.Content.{length-load, load-store, store, load}
use reco_nic.Memory.Device.{replay}
use reco_nic.Registers.{rnic_op_read, rn_rdma_pdt_bufbaseaddrlsb, rn_rdma_pdt_bufbaseaddrmsb}
use reco_nic.Rdma.Pd.Laws.{Grants, pd_register}
use reco_nic.Rdma.Device.Writes.{card_address}
use reco_nic.Rdma.Wqe.{RdmaWqe, wqe_size}
use reco_nic.Rdma.Wqe.Codec.{wqe_of_bytes}
use reco_nic.Reconic.Buffer.{start_offset}
use reco_nic.Examples.Rdma.Setup.{r_key, htonll}
use reco_nic.Examples.Rdma.Read.{read_server_offer, read_client_post, read_client_check}
use reco_nic.Examples.Rdma.ReadTransfer.{IsRdmaRead, read_transfer}
use reco_nic.Examples.Rdma.Client.{HandedOver, transfer}
use reco_nic.Examples.Rdma.Handshake.{offered}
use reco_nic.Tests.{card, card-IsRegular, zeros, buffer_at}
use reco_nic.Tests.Programs.{m0, payload, options, shell, objects, m0-IsSetUp, m0-IsServer, place}

-- The word of a register, 0 before it is written.
abbrev word : Option ℕ → ℕ
word none = 0
word (some v) = v

-- Where the server's domain 5 has its buffer on the card.
abbrev granted : List Access → ℕ
granted t =
    word (last_write t (0x1000 + pd_register rn_rdma_pdt_bufbaseaddrmsb 5)) * 2 ^ 32
    + word (last_write t (0x1000 + pd_register rn_rdma_pdt_bufbaseaddrlsb 5))

-- The cards' RDMA read, as a write to the client's card of what the server's holds.
abbrev engine : (server client : Machine) (e : RdmaWqe) → Machine
engine server client e =
    let bytes = load (replay zeros server.file).content (granted server.bus % 2 ^ 37) e.length in
    let at = (e.laddr_high * 2 ^ 32 + e.laddr_low) % 2 ^ 37 in
    record client { file = file_write bytes (some e.length) ∷ seek at (some at) ∷ client.file }

granted-Grants :
    (t : List Access) (key : ℕ) (buf : RdmaBuff)
    → Grants 0x1000 t 5 key buf
    → granted t ≡ card_address buf.dma_addr
granted-Grants t key buf g =
    ap₂ (λ (lsb msb : Option ℕ). word msb * 2 ^ 32 + word lsb) g.physical_address.0
      g.physical_address.1
    ∙ omega arith

engine-IsRdmaRead : IsRdmaRead zeros zeros 0x1000 5 engine
engine-IsRdmaRead = record {
  frame = λ server client e. refl;
  moves = λ server client e buf reads grants begins fits.
      let c = (replay zeros client.file).content in
      let d = (replay zeros server.file).content in
      let n = e.length in
      let bytes = load d (granted server.bus % 2 ^ 37) n in
      let size = length-load d (granted server.bus % 2 ^ 37) n in
      let at = (e.laddr_high * 2 ^ 32 + e.laddr_low) % 2 ^ 37 in
      ap (λ (t : List ℕ). load (store c at t) at n) (take_all n bytes (omega (arith, size)))
      ∙ ap (λ (k : ℕ). load (store c at bytes) at k) (sym size)
      ∙ load-store c at bytes
      ∙ ap (λ (a : ℕ). load d (a % 2 ^ 37) n) (granted-Grants server.bus e.r_key buf grants);
}

read_transfer_example :
    (raw : ℕ) × (s' c' : Machine) × (read_server_offer (card 0) shell options objects payload m0
      ≡ ret (some raw) s')
    × Grants 0x1000 s'.bus 5 r_key (offered m0-IsServer)
    × (read_client_post (card 0) shell options objects payload (htonll raw) m0 ≡ ret 100 c')
    × HandedOver m0 c' 0x1000 0 0x10000
        (transfer place 4 rnic_op_read (offered m0-IsServer).buffer r_key)
    × (m' : Machine) × (read_client_check
          (card 0)
          shell
          options
          objects
          payload
          100
          (engine s' c' (wqe_of_bytes (load c'.memory 0x10000 wqe_size)))
        ≡ ret true m')
unfolding start_offset m0-IsSetUp m0-IsServer
read_transfer_example =
    read_transfer (card 0) (card 0) zeros zeros shell shell options options objects objects payload
      (buffer_at 0x10000) m0 m0 card-IsRegular card-IsRegular (λ n. refl) (λ n. refl) m0-IsServer
      m0-IsSetUp refl refl engine engine-IsRdmaRead
