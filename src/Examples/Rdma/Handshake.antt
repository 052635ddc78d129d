-- ===== src/Examples/Rdma/Handshake.antt =====
-- examples/rdma_test/write.c: the server offers a buffer, and the client asks to write to it.
use reco_nic.Prelude.{
  ℕ, ◌+◌, ◌^◌, ◌≤◌, ◌<◌, ◌≡◌, ◌≢◌, refl, ap, ◌∙◌, List, some, true, false, arith, ==-refl, le→leb,
  length,
}
use reco_nic.Machine.{Machine, Env, Ptr, RnDev, RdmaDev, RdmaPd, RdmaBuff, ret, deref}
use reco_nic.Memory.Content.{store}
use reco_nic.Memory.Device.{IsRegular, replay}
use reco_nic.Registers.{rnic_op_write}
use reco_nic.Reconic.Address.{device_mem_offset}
use reco_nic.Reconic.Address.Laws.{bar_window}
use reco_nic.Reconic.Buffer.{start_offset, allocate_rdma_buffer, device_mem}
use reco_nic.Reconic.Buffer.Laws.{with_device_buffer, allocate_rdma_buffer-device}
use reco_nic.Rdma.Dump.{dump_registers}
use reco_nic.Rdma.Dump.Laws.{dump_registers-OnlyReads}
use reco_nic.Rdma.Pd.Laws.{
  Grants, IsRegion, registered_machine, rdma_register_memory_region-run, registered-Grants,
}
use reco_nic.Examples.Rdma.Setup.{Options, Shell, Objects, r_key, htonll}
use reco_nic.Examples.Rdma.Write.{write_client, write_server_offer}
use reco_nic.Examples.Rdma.Client.{HandedOver, transfer}
use reco_nic.Examples.Rdma.WriteLaws.{IsSetUp, write_client-posts}

-- Swapping the bytes of a 64-bit word twice gives it back.
pub htonll-htonll : (x : ℕ) → x < 2 ^ 64 → htonll (htonll x) ≡ x
unfolding htonll
htonll-htonll x h = omega arith

-- The state of a server behind the setup.
pub record IsServer (m : Machine) (b : Objects) (size : ℕ) : Type 0 where
  pub rn : RnDev
  pub at_rn : m.rn_devs b.rn_dev ≡ some rn
  pub points : rn.rdma_dev ≡ b.rdma_dev
  pub low : rn.dev_buffer_offset ≤ 2 ^ 32
  pub small : size < 2 ^ 32
  pub room : start_offset rn.dev_buffer_offset size + size ≤ 2 ^ 32
  pub fresh : m.next ≢ 0
  pub real : b.rdma_dev ≢ 0
  pub d : RdmaDev
  pub at_dev : m.rdma_devs b.rdma_dev ≡ some d
  pub at_window : m.win_sizes d.win_size ≡ some bar_window
  pub mapped : d.axil_ctl ≢ 0
  pub real_pd : b.rdma_pd ≢ 0
  pub pd : RdmaPd
  pub at_pd : m.pds b.rdma_pd ≡ some pd
  pub pd_num : pd.pd_num < 0x200
  pub access : pd.pd_access_type ≡ 2

-- The buffer that a server offers.
abbrev pub offered : {m : Machine} {b : Objects} {size : ℕ} → IsServer m b size → RdmaBuff
offered {m} {b} {size} s = record {
  buffer = device_mem_offset + start_offset s.rn.dev_buffer_offset size;
  dma_addr = device_mem_offset + start_offset s.rn.dev_buffer_offset size;
  buf_size = size;
}

module _ (env : Env) (shell : Shell) (o : Options) (b : Objects) (sw_golden : List ℕ) (m : Machine)
    (enough_memory : (n : ℕ) → env.malloc_fails n ≡ false) (s : IsServer m b o.payload_size) where
  abbrev start : ℕ
  start = start_offset s.rn.dev_buffer_offset o.payload_size

  -- The server grants write access to its buffer under the key 8, and sends the buffer's address in
  -- network order.
  pub write_server_offer-Grants :
      (tmp_buffer : Ptr) × (m' : Machine) × (write_server_offer env shell o b sw_golden m
        ≡ ret (tmp_buffer, htonll (device_mem_offset + start)) m')
      × Grants s.d.axil_ctl m'.bus s.pd.pd_num r_key (offered s)
  unfolding write_server_offer
  write_server_offer-Grants =
      let m0 = record m { next = m.next + 1 } in
      let (m1, dumped, reads) = dump_registers-OnlyReads env m0 b.rdma_dev 0 2 s.d s.at_dev in
      let dumped' : dump_registers env s.rn.rdma_dev 0 2 m0 ≡ ret tt m1 = rw s.points dumped in
      let next1 : m1.next ≡ m.next + 1 = ap (λ (x : Machine). x.next) reads.1 in
      let rn1 : m1.rn_devs b.rn_dev ≡ some s.rn =
        ap (λ (x : Machine). x.rn_devs b.rn_dev) reads.1 ∙ s.at_rn in
      let m2 = with_device_buffer m1 b.rn_dev s.rn start o.payload_size in
      let allocated : allocate_rdma_buffer env b.rn_dev o.payload_size device_mem m1
          ≡ ret m1.next m2 =
        allocate_rdma_buffer-device env b.rn_dev enough_memory m1 s.rn o.payload_size
          (λ e. omega (arith, next1)) rn1 s.low s.small
        ∙ rw (le→leb (start + o.payload_size) 4294967296 s.room) refl in
      let dev2 : m2.rdma_devs b.rdma_dev ≡ some s.d =
        ap (λ (x : Machine). x.rdma_devs b.rdma_dev) reads.1 ∙ s.at_dev in
      let win2 : m2.win_sizes s.d.win_size ≡ some bar_window =
        ap (λ (x : Machine). x.win_sizes s.d.win_size) reads.1 ∙ s.at_window in
      let pd2 : m2.pds b.rdma_pd ≡ some s.pd =
        ap (λ (x : Machine). x.pds b.rdma_pd) reads.1 ∙ s.at_pd in
      let buf2 : m2.buffs m1.next ≡ some (offered s) = rw (==-refl m1.next) refl in
      let region : IsRegion s.pd r_key (offered s) = record {
        pd_num = s.pd_num;
        access = s.access;
        key = omega arith;
        buffer = omega (arith, s.room);
        dma_addr = omega (arith, s.room);
        buf_size = s.small;
      } in
      let real_buf : m1.next ≢ 0 = λ e. omega (arith, next1) in
      let run =
        rdma_register_memory_region-run m2 b.rdma_dev b.rdma_pd m1.next s.d s.pd (offered s) r_key
          s.real s.real_pd real_buf s.mapped dev2 win2 pd2 buf2 region in
      let grants =
        registered-Grants m2 b.rdma_dev b.rdma_pd m1.next s.d s.pd (offered s) r_key s.real
          s.real_pd real_buf s.mapped dev2 win2 pd2 buf2 region in
      let rn_at : m0.rn_devs b.rn_dev ≡ some s.rn = s.at_rn in
      (
        m1.next,
        registered_machine s.d.axil_ctl r_key b.rdma_pd m1.next s.pd (offered s) m2,
        rw (enough_memory m.next)
            (rw (rn_at, deref) (rw dumped' (rw allocated (rw run (rw (buf2, deref) refl))))),
        grants,
      )

module _ (env_s env_c : Env) (initial : ℕ → ℕ) (shell_s shell_c : Shell) (o_s o_c : Options)
    (b_s b_c : Objects) (sw_golden : List ℕ) (sq : RdmaBuff) (m_s m_c : Machine)
    (memory_s : (n : ℕ) → env_s.malloc_fails n ≡ false)
    (memory_c : (n : ℕ) → env_c.malloc_fails n ≡ false) (regular : IsRegular env_c initial)
    (s : IsServer m_s b_s o_s.payload_size) (c : IsSetUp m_c b_c o_c.payload_size sq) where
  -- Where the client's payload goes in its card's memory.
  abbrev payload_at : ℕ
  payload_at = start_offset c.rn.dev_buffer_offset o_c.payload_size

  -- A server and a client of the write program, both behind their setup. The server sends a word,
  -- and its table then grants access to a buffer of its payload's size. The client that receives
  -- the word hands its card a request to write its payload to just that buffer: the remote address
  -- is the one that the server grants, and the key is the one that it grants it under.
  pub write_handshake :
      length sw_golden ≡ o_c.payload_size
      → (tmp_buffer raw : ℕ) × (s' c' : Machine) × (write_server_offer env_s shell_s o_s b_s
            sw_golden m_s
          ≡ ret (tmp_buffer, raw) s')
        × Grants s.d.axil_ctl s'.bus s.pd.pd_num r_key (offered s)
        × (write_client env_c shell_c o_c b_c sw_golden (htonll raw) m_c ≡ ret true c')
        × ((replay initial c'.file).content
            ≡ store (replay initial m_c.file).content payload_at sw_golden)
        × HandedOver m_c c' c.queue.d.axil_ctl c.queue.q.sq_pidb sq.buffer (
            transfer
              (device_mem_offset + payload_at)
              o_c.payload_size
              rnic_op_write
              (offered s).buffer
              r_key)
  write_handshake whole =
      let small : (offered s).buffer < 2 ^ 64 = omega (arith, s.room) in
      let (tmp, s', offers, grants) =
        write_server_offer-Grants env_s shell_s o_s b_s sw_golden m_s memory_s s in
      let (c', runs, content, over) =
        write_client-posts env_c initial shell_c o_c b_c sw_golden sq m_c regular memory_c c whole
          (offered s).buffer small in
      (
        tmp,
        htonll (offered s).buffer,
        s',
        c',
        offers,
        grants,
        rw (htonll-htonll (offered s).buffer small) runs,
        content,
        over,
      )
