-- ===== src/Examples/Rdma/ReadTransfer.antt =====
-- examples/rdma_test/read.c: both programs, with a card that does what it is asked for.
use reco_nic.Prelude.{
  Bool, Bool-cases, inl, inr, ℕ, ◌+◌, ◌*◌, ◌%◌, ◌^◌, ◌≤◌, ◌<◌, ◌≡◌, refl, sym, ap, ◌∙◌, List, some,
  true, false, arith, ==-refl, length,
}
use reco_nic.Machine.{Machine, Env, RnDev, RdmaBuff, ret}
use reco_nic.Memory.Content.{load, load-store}
use reco_nic.Memory.Device.{IsRegular, replay}
use reco_nic.Registers.{rnic_op_read}
use reco_nic.Reconic.Address.{device_mem_offset}
use reco_nic.Reconic.Address.{is_device_address}
use reco_nic.Reconic.Address.Laws.{is_device_address_iff}
use reco_nic.Reconic.Buffer.{start_offset}
use reco_nic.Rdma.Pd.Laws.{Grants}
use reco_nic.Rdma.Device.Writes.{card_address}
use reco_nic.Rdma.Wqe.{RdmaWqe, wqe_size}
use reco_nic.Rdma.Wqe.Codec.{wqe_of_bytes}
use reco_nic.Examples.Systolic.Run.{int_at}
use reco_nic.Examples.Rdma.Setup.{Options, Shell, Objects, r_key, htonll}
use reco_nic.Examples.Rdma.Read.{read_server_offer, read_client_post, read_client_check}
use reco_nic.Examples.Rdma.Client.{HandedOver, transfer}
use reco_nic.Examples.Rdma.WriteLaws.{IsSetUp}
use reco_nic.Examples.Rdma.Handshake.{IsServer, offered, htonll-htonll}
use reco_nic.Examples.Rdma.Check.{held, checks-Judged}
use reco_nic.Examples.Rdma.ReadLaws.{read_server_offer-Grants, read_client_post-posts}

-- An RDMA read of the cards, as a function from the machines of the server and the client, and from
-- the element at the client, to what the client's machine is then. If the element asks for a read
-- and the server's table grants its key on a buffer that begins at its remote address and is long
-- enough, the bytes of that buffer are then at its local address on the client's card. Apart from
-- its card's memory and what its registers say, the client's machine is as it was.
pub record IsRdmaRead (initial_s initial_c : ℕ → ℕ) (base pd_num : ℕ)
    (engine : (server client : Machine) (e : RdmaWqe) → Machine) : Type 0 where
  pub frame :
      (server client : Machine) (e : RdmaWqe)
      → let m = engine server client e in m ≡ record client { file = m.file; bus = m.bus }
  pub moves :
      (server client : Machine) (e : RdmaWqe) (buf : RdmaBuff)
      → e.opcode ≡ rnic_op_read
      → Grants base server.bus pd_num e.r_key buf
      → e.remote_offset_high * 2 ^ 32 + e.remote_offset_low ≡ buf.buffer
      → e.length ≤ buf.buf_size
      → load
          (replay initial_c (engine server client e).file).content
          ((e.laddr_high * 2 ^ 32 + e.laddr_low) % 2 ^ 37)
          e.length
        ≡ load (replay initial_s server.file).content (card_address buf.dma_addr % 2 ^ 37) e.length

card_address_low : (a : ℕ) → card_address a % 2 ^ 37 ≡ a % 2 ^ 37
card_address_low a = elim (Bool-cases (is_device_address a)) [
  | inl card ↦ rw card refl
  | inr host ↦ rw host (omega arith)
]

module _ (env_s env_c : Env) (initial_s initial_c : ℕ → ℕ) (shell_s shell_c : Shell)
    (o_s o_c : Options) (b_s b_c : Objects) (sw_golden : List ℕ) (sq : RdmaBuff) (m_s m_c : Machine)
    (regular_s : IsRegular env_s initial_s) (regular_c : IsRegular env_c initial_c)
    (memory_s : (n : ℕ) → env_s.malloc_fails n ≡ false)
    (memory_c : (n : ℕ) → env_c.malloc_fails n ≡ false) (s : IsServer m_s b_s o_s.payload_size)
    (c : IsSetUp m_c b_c o_c.payload_size sq) (whole : length sw_golden ≡ o_s.payload_size)
    (same_size : o_s.payload_size ≡ o_c.payload_size)
    (engine : (server client : Machine) (e : RdmaWqe) → Machine)
    (reads : IsRdmaRead initial_s initial_c s.d.axil_ctl s.pd.pd_num engine) where
  abbrev place : ℕ
  place = start_offset s.rn.dev_buffer_offset o_s.payload_size

  abbrev goal : ℕ
  goal = start_offset c.rn.dev_buffer_offset o_c.payload_size

  -- A server and a client of the read program, both behind their setup and with the same payload,
  -- on regular devices whose cards do RDMA reads. The server sends a word; the client that receives
  -- it hands its card a request to read the whole payload from just the buffer that the server
  -- grants, under the key that it grants it under. When the card has done what the element in the
  -- send queue asks for, the client's check of the data succeeds.
  pub read_transfer :
      (raw : ℕ) × (s' c' : Machine) × (read_server_offer env_s shell_s o_s b_s sw_golden m_s
        ≡ ret (some raw) s')
      × Grants s.d.axil_ctl s'.bus s.pd.pd_num r_key (offered s)
      × (read_client_post env_c shell_c o_c b_c sw_golden (htonll raw) m_c ≡ ret m_c.next c')
      × HandedOver m_c c' c.queue.d.axil_ctl c.queue.q.sq_pidb sq.buffer (
          transfer
            (device_mem_offset + goal)
            o_c.payload_size
            rnic_op_read
            (offered s).buffer
            r_key)
      × (m' : Machine) × (read_client_check env_c shell_c o_c b_c sw_golden m_c.next
            (engine s' c' (wqe_of_bytes (load c'.memory sq.buffer wqe_size)))
          ≡ ret true m')
  read_transfer =
      let size = o_c.payload_size in
      let small : (offered s).buffer < 2 ^ 64 = omega (arith, s.room) in
      let (s', offers, grants, content) =
        read_server_offer-Grants env_s initial_s regular_s shell_s o_s b_s sw_golden m_s memory_s s
          whole in
      let (c', posts, over, frame) =
        read_client_post-posts env_c shell_c o_c b_c sw_golden sq m_c memory_c c (offered s).buffer
          small in
      let e = wqe_of_bytes (load c'.memory sq.buffer wqe_size) in
      let asks = over.element.element in
      let f = engine s' c' e in
      let same : f ≡ record c' { file = f.file; bus = f.bus } = reads.frame s' c' e in
      let buf : RdmaBuff = record {
        buffer = device_mem_offset + goal;
        dma_addr = device_mem_offset + goal;
        buf_size = size;
      } in
      let at_buf : f.buffs m_c.next ≡ some buf =
        ap (λ (x : Machine). x.buffs m_c.next) same
        ∙ ap (λ (x : Machine). x.buffs m_c.next) frame
        ∙ rw (==-refl m_c.next) refl in
      let rn : RnDev = record c.rn { dev_buffer_offset = goal + size } in
      let at_rn : f.rn_devs b_c.rn_dev ≡ some rn =
        ap (λ (x : Machine). x.rn_devs b_c.rn_dev) same
        ∙ ap (λ (x : Machine). x.rn_devs b_c.rn_dev) frame
        ∙ rw (==-refl b_c.rn_dev) refl in
      let at_dev : f.rdma_devs b_c.rdma_dev ≡ some c.queue.d =
        ap (λ (x : Machine). x.rdma_devs b_c.rdma_dev) same
        ∙ ap (λ (x : Machine). x.rdma_devs b_c.rdma_dev) frame
        ∙ c.queue.at_dev in
      let tag : is_device_address (device_mem_offset + goal) ≡ true =
        (is_device_address_iff (device_mem_offset + goal) (omega (arith, c.room))).1
          (omega (arith, c.room)) in
      let granted : Grants s.d.axil_ctl s'.bus s.pd.pd_num e.r_key (offered s) =
        rw asks.r_key grants in
      let moved =
        reads.moves s' c' e (offered s) asks.opcode granted asks.remote_offset
          (omega (arith, asks.length, same_size)) in
      let local : (e.laddr_high * 2 ^ 32 + e.laddr_low) % 2 ^ 37
          ≡ (device_mem_offset + goal) % 2 ^ 37 =
        ap (λ (a : ℕ). a % 2 ^ 37) asks.laddr ∙ card_address_low (device_mem_offset + goal) in
      let remote : card_address (offered s).dma_addr % 2 ^ 37 ≡ place =
        card_address_low (offered s).dma_addr ∙ omega (arith, s.room) in
      let len : e.length ≡ length sw_golden = asks.length ∙ sym same_size ∙ sym whole in
      let there = (replay initial_c f.file).content in
      let holds : held env_c initial_c regular_c f buf size ≡ sw_golden = rw tag (
        ap (λ (n : ℕ). load there ((device_mem_offset + goal) % 2 ^ 37) n) (sym asks.length)
        ∙ ap (λ (a : ℕ). load there a e.length) (sym local)
        ∙ moved
        ∙ ap (λ (a : ℕ). load (replay initial_s s'.file).content a e.length) remote
        ∙ ap (λ (n : ℕ). load (replay initial_s s'.file).content place n) len
        ∙ ap (λ (d : ℕ → ℕ). load d place (length sw_golden)) content
        ∙ load-store (replay initial_s m_s.file).content place sw_golden) in
      let (v, m', judged, exactly) =
        (checks-Judged env_c initial_c regular_c shell_c o_c b_c sw_golden f m_c.next buf rn
          c.queue.d at_buf at_rn c.points at_dev).1 in
      let good : v ≡ true = exactly.1 (λ p _ _. ap (λ (xs : List ℕ). int_at xs p) holds) in
      (
        htonll (offered s).buffer,
        s',
        c',
        offers,
        grants,
        rw (htonll-htonll (offered s).buffer small) posts,
        over,
        m',
        judged ∙ ap (λ (x : Bool). ret x m') good,
      )
