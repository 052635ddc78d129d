-- ===== src/Examples/Rdma/ReadLaws.antt =====
-- examples/rdma_test/read.c: from the offer of the server to the check of the client.
use reco_nic.Prelude.{
  ℕ, ◌+◌, ◌^◌, ◌<◌, ◌≡◌, refl, ap, ◌∙◌, List, some, false, arith, ==-refl, ◌==◌, le→leb, length,
}
use reco_nic.Machine.{Machine, Env, Ptr, RdmaBuff, ret, deref}
use reco_nic.Memory.Content.{store}
use reco_nic.Memory.Device.{IsRegular, replay}
use reco_nic.Registers.{rnic_op_read}
use reco_nic.Reconic.Address.{device_mem_offset}
use reco_nic.Reconic.Buffer.{start_offset, allocate_rdma_buffer, device_mem}
use reco_nic.Reconic.Buffer.Laws.{with_device_buffer, allocate_rdma_buffer-device}
use reco_nic.Rdma.Pd.Laws.{
  Grants, IsRegion, registered_machine, rdma_register_memory_region-run, registered-Grants,
}
use reco_nic.Rdma.Wqe.{create_a_wqe}
use reco_nic.Rdma.Send.{rdma_post_send}
use reco_nic.Rdma.Dump.{dump_registers}
use reco_nic.Rdma.Wqe.Laws.{HasQueue}
use reco_nic.Rdma.Wqe.Element.{IsRequest}
use reco_nic.Examples.Rdma.Setup.{Options, Shell, Objects, r_key, htonll}
use reco_nic.Examples.Rdma.Read.{read_server_offer, read_client_post}
use reco_nic.Examples.Rdma.Client.{HandedOver, hand_over, transfer}
use reco_nic.Examples.Rdma.WriteLaws.{IsSetUp, fill_buffer-card}
use reco_nic.Examples.Rdma.Handshake.{IsServer, offered}

module _ (env : Env) (initial : ℕ → ℕ) (regular : IsRegular env initial) (shell : Shell)
    (o : Options) (b : Objects) (sw_golden : List ℕ) (m : Machine)
    (enough_memory : (n : ℕ) → env.malloc_fails n ≡ false) (s : IsServer m b o.payload_size)
    (whole : length sw_golden ≡ o.payload_size) where
  abbrev place : ℕ
  place = start_offset s.rn.dev_buffer_offset o.payload_size

  -- The server's buffer has the payload, its table grants it, and its address is sent.
  pub read_server_offer-Grants :
      (m' : Machine) × (read_server_offer env shell o b sw_golden m
        ≡ ret (some (htonll (device_mem_offset + place))) m')
      × Grants s.d.axil_ctl m'.bus s.pd.pd_num r_key (offered s)
      × ((replay initial m'.file).content ≡ store (replay initial m.file).content place sw_golden)
  unfolding read_server_offer
  read_server_offer-Grants =
      let size = o.payload_size in
      let m2 = with_device_buffer m b.rn_dev s.rn place size in
      let allocated : allocate_rdma_buffer env b.rn_dev size device_mem m ≡ ret m.next m2 =
        allocate_rdma_buffer-device env b.rn_dev enough_memory m s.rn size s.fresh s.at_rn s.low
          s.small
        ∙ rw (le→leb (place + size) 4294967296 s.room) refl in
      let buf2 : m2.buffs m.next ≡ some (offered s) = rw (==-refl m.next) refl in
      let region : IsRegion s.pd r_key (offered s) = record {
        pd_num = s.pd_num;
        access = s.access;
        key = omega arith;
        buffer = omega (arith, s.room);
        dma_addr = omega (arith, s.room);
        buf_size = s.small;
      } in
      let run =
        rdma_register_memory_region-run m2 b.rdma_dev b.rdma_pd m.next s.d s.pd (offered s) r_key
          s.real s.real_pd s.fresh s.mapped s.at_dev s.at_window s.at_pd buf2 region in
      let grants =
        registered-Grants m2 b.rdma_dev b.rdma_pd m.next s.d s.pd (offered s) r_key s.real s.real_pd
          s.fresh s.mapped s.at_dev s.at_window s.at_pd buf2 region in
      let m3 = registered_machine s.d.axil_ctl r_key b.rdma_pd m.next s.pd (offered s) m2 in
      let (m4, filled, content, frame) =
        fill_buffer-card env initial sw_golden size size place (offered s) m3 regular whole
          (omega (arith, s.room)) refl in
      let bus4 : m4.bus ≡ m3.bus = ap (λ (x : Machine). x.bus) frame in
      (m4, rw allocated (rw run (rw (buf2, deref) (rw filled refl))), rw bus4 grants, content)

module _ (env : Env) (shell : Shell) (o : Options) (b : Objects) (sw_golden : List ℕ)
    (sq : RdmaBuff) (m : Machine) (enough_memory : (n : ℕ) → env.malloc_fails n ≡ false)
    (c : IsSetUp m b o.payload_size sq) where
  abbrev goal : ℕ
  goal = start_offset c.rn.dev_buffer_offset o.payload_size

  abbrev allocated : Machine
  allocated = with_device_buffer m b.rn_dev c.rn goal o.payload_size

  abbrev queue-HasQueue : HasQueue allocated b.rdma_dev 2 sq
  queue-HasQueue =
      let newer : (m.next == c.queue.q.sq) ≡ false = ground (arith, c.old) in
      record {
        d = c.queue.d;
        qp = c.queue.qp;
        q = c.queue.q;
        at_dev = c.queue.at_dev;
        at_window = c.queue.at_window;
        at_pointer = c.queue.at_pointer;
        at_qp = c.queue.at_qp;
        at_sq = rw newer c.queue.at_sq;
      }

  -- The card has been handed a request to read, under the key 8, from the address that the client
  -- has received.
  pub read_client_post-posts :
      (read_a_offset : ℕ)
      → read_a_offset < 2 ^ 64
      → (m' : Machine) × (read_client_post env shell o b sw_golden read_a_offset m ≡ ret m.next m')
        × HandedOver m m' c.queue.d.axil_ctl c.queue.q.sq_pidb sq.buffer
            (transfer (device_mem_offset + goal) o.payload_size rnic_op_read read_a_offset 8)
        × (m' ≡ record allocated { memory = m'.memory; bus = m'.bus; qps = m'.qps })
  unfolding read_client_post
  read_client_post-posts read_a_offset fits =
      let size = o.payload_size in
      let r = transfer (device_mem_offset + goal) size rnic_op_read read_a_offset 8 in
      let got : allocate_rdma_buffer env b.rn_dev size device_mem m ≡ ret m.next allocated =
        allocate_rdma_buffer-device env b.rn_dev enough_memory m c.rn size c.fresh c.at_rn c.low
          c.small
        ∙ rw (le→leb (goal + size) 4294967296 c.room) refl in
      let request_fits : IsRequest r = record {
        wrid = omega arith;
        laddr = omega (arith, c.room);
        length = c.small;
        remote_offset = fits;
        r_key = omega arith;
        send_small_payload0 = omega arith;
        send_small_payload1 = omega arith;
        send_small_payload2 = omega arith;
        send_small_payload3 = omega arith;
        immdt_data = omega arith;
      } in
      let (v, m3, m4, m5, created, sent, dumped, over, frame) =
        hand_over env allocated b.rdma_dev r sq queue-HasQueue c.real request_fits c.host c.at
          c.fits 1 in
      let created' : create_a_wqe env c.rn.rdma_dev 2 0 r allocated ≡ ret tt m3 =
        ap (λ (p : Ptr). create_a_wqe env p 2 0 r allocated) c.points ∙ created in
      let sent' : rdma_post_send env c.rn.rdma_dev 2 m3 ≡ ret v m4 =
        ap (λ (p : Ptr). rdma_post_send env p 2 m3) c.points ∙ sent in
      let dumped' : dump_registers env c.rn.rdma_dev 1 2 m4 ≡ ret tt m5 =
        ap (λ (p : Ptr). dump_registers env p 1 2 m4) c.points ∙ dumped in
      let rn_at : allocated.rn_devs b.rn_dev
          ≡ some (record c.rn { dev_buffer_offset = goal + size }) =
        rw (==-refl b.rn_dev) refl in
      let buf_at : allocated.buffs m.next
          ≡ some (record {
            buffer = device_mem_offset + goal;
            dma_addr = device_mem_offset + goal;
            buf_size = size;
          }) =
        rw (==-refl m.next) refl in
      (
        m5,
        rw got (rw (buf_at, deref) (rw (rn_at, deref) (rw created' (rw sent' (rw dumped' refl))))),
        record { element = over.element; rung = over.rung },
        frame,
      )
