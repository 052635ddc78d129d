-- ===== src/Examples/Rdma/WriteLaws.antt =====
-- examples/rdma_test/write.c: what its client asks the card for.
use reco_nic.Prelude.{
  ℕ, ◌+◌, ◌%◌, ◌^◌, ◌≤◌, ◌<◌, ◌≡◌, ◌≢◌, refl, ap, ◌∙◌, List, some, true, false, arith, ==-refl,
  ◌==◌, le→leb, length,
}
use reco_nic.Machine.{Machine, Env, RnDev, RdmaBuff, ret, deref}
use reco_nic.Memory.Content.{store}
use reco_nic.Memory.Device.{IsRegular, replay}
use reco_nic.Memory.Laws.{write_from_buffer-store}
use reco_nic.Registers.{rnic_op_write}
use reco_nic.Reconic.Address.{is_device_address, device_mem_offset}
use reco_nic.Reconic.Address.Laws.{is_device_address_iff}
use reco_nic.Reconic.Buffer.{start_offset, allocate_rdma_buffer, device_mem}
use reco_nic.Reconic.Buffer.Laws.{with_device_buffer, allocate_rdma_buffer-device}
use reco_nic.Rdma.Wqe.Laws.{HasQueue}
use reco_nic.Rdma.Wqe.Element.{IsRequest}
use reco_nic.Examples.Rdma.Setup.{Options, Shell, Objects}
use reco_nic.Examples.Rdma.Steps.{fill_buffer}
use reco_nic.Examples.Rdma.Write.{write_client}
use reco_nic.Examples.Rdma.Client.{HandedOver, hand_over, transfer}

-- The state behind the setup: the device has room for the payload, and queue pair 2 has its send
-- queue in the host's memory.
pub record IsSetUp (m : Machine) (b : Objects) (size : ℕ) (sq : RdmaBuff) : Type 0 where
  pub rn : RnDev
  pub at_rn : m.rn_devs b.rn_dev ≡ some rn
  pub points : rn.rdma_dev ≡ b.rdma_dev
  pub low : rn.dev_buffer_offset ≤ 2 ^ 32
  pub small : size < 2 ^ 32
  pub room : start_offset rn.dev_buffer_offset size + size ≤ 2 ^ 32
  pub fresh : m.next ≢ 0
  pub queue : HasQueue m b.rdma_dev 2 sq
  pub old : queue.q.sq ≢ m.next
  pub real : b.rdma_dev ≢ 0
  pub host : is_device_address sq.dma_addr ≡ false
  pub at : 0 < sq.buffer
  pub fits : sq.buffer < 2 ^ 64

device_tag : (s : ℕ) → s < 2 ^ 52 → is_device_address (device_mem_offset + s) ≡ true
device_tag s h = (is_device_address_iff (device_mem_offset + s) (omega arith)).1 (omega arith)

-- A payload that goes to a buffer on the card.
pub fill_buffer-card :
    (env : Env) (initial : ℕ → ℕ) (sw_golden : List ℕ) (size host_size place : ℕ) (buf : RdmaBuff)
    (m : Machine)
    → IsRegular env initial
    → length sw_golden ≡ size
    → place < 2 ^ 37
    → buf.dma_addr ≡ device_mem_offset + place
    → (m' : Machine) × (fill_buffer env sw_golden size host_size buf m ≡ ret true m')
      × ((replay initial m'.file).content ≡ store (replay initial m.file).content place sw_golden)
      × (m' ≡ record m { file = m'.file })
unfolding fill_buffer
fill_buffer-card env initial sw_golden size host_size place buf m regular whole low there =
    let tag : is_device_address buf.dma_addr ≡ true =
      ap is_device_address there ∙ device_tag place (omega arith) in
    let (m', run, content, frame) =
      write_from_buffer-store env initial sw_golden buf.dma_addr m regular in
    let at : buf.dma_addr % 2 ^ 37 ≡ place = omega (arith, there) in
    (
      m',
      rw tag (rw (rw whole at run) refl),
      content ∙ ap (λ (a : ℕ). store (replay initial m.file).content a sw_golden) at,
      frame,
    )

module _ (env : Env) (initial : ℕ → ℕ) (shell : Shell) (o : Options) (b : Objects)
    (sw_golden : List ℕ) (sq : RdmaBuff) (m : Machine) (regular : IsRegular env initial)
    (enough_memory : (n : ℕ) → env.malloc_fails n ≡ false) (ready : IsSetUp m b o.payload_size sq)
    (whole : length sw_golden ≡ o.payload_size) where
  -- Where the payload goes in the card's memory.
  abbrev start : ℕ
  start = start_offset ready.rn.dev_buffer_offset o.payload_size

  abbrev allocated : Machine
  allocated = with_device_buffer m b.rn_dev ready.rn start o.payload_size

  abbrev device_buffer : RdmaBuff
  device_buffer = record {
    buffer = device_mem_offset + start;
    dma_addr = device_mem_offset + start;
    buf_size = o.payload_size;
  }

  allocation : allocate_rdma_buffer env b.rn_dev o.payload_size device_mem m ≡ ret m.next allocated
  allocation =
      allocate_rdma_buffer-device env b.rn_dev enough_memory m ready.rn o.payload_size ready.fresh
        ready.at_rn ready.low ready.small
      ∙ rw (le→leb (start + o.payload_size) 4294967296 ready.room) refl

  -- The payload's transfer.
  filled :
      (m2 : Machine) × (fill_buffer env sw_golden o.payload_size o.payload_size device_buffer
          allocated
        ≡ ret true m2)
      × ((replay initial m2.file).content ≡ store (replay initial m.file).content start sw_golden)
      × (m2 ≡ record allocated { file = m2.file })
  filled =
      fill_buffer-card env initial sw_golden o.payload_size o.payload_size start device_buffer
        allocated regular whole (omega (arith, ready.room)) refl

  -- The client of the write program, on a regular device that has been set up with the send queue
  -- in the host's memory, with room for the payload and memory for its objects: it goes through.
  -- The payload is then in the card's memory at the next free place, and the card has been handed a
  -- request to write it, under the key 8, to the address that the client has received.
  pub write_client-posts :
      (write_offset_client : ℕ)
      → write_offset_client < 2 ^ 64
      → (m' : Machine) × (write_client env shell o b sw_golden write_offset_client m ≡ ret true m')
        × ((replay initial m'.file).content ≡ store (replay initial m.file).content start sw_golden)
        × HandedOver m m' ready.queue.d.axil_ctl ready.queue.q.sq_pidb sq.buffer (
            transfer (device_mem_offset + start) o.payload_size rnic_op_write write_offset_client 8)
  unfolding write_client
  write_client-posts write_offset_client fits =
      let r =
        transfer (device_mem_offset + start) o.payload_size rnic_op_write write_offset_client 8 in
      let (m2, ran, content, frame) = filled in
      let newer : (m.next == ready.queue.q.sq) ≡ false = ground (arith, ready.old) in
      let queue : HasQueue m2 b.rdma_dev 2 sq = record {
        d = ready.queue.d;
        qp = ready.queue.qp;
        q = ready.queue.q;
        at_dev = ap (λ (x : Machine). x.rdma_devs b.rdma_dev) frame ∙ ready.queue.at_dev;
        at_window =
            ap (λ (x : Machine). x.win_sizes ready.queue.d.win_size) frame ∙ ready.queue.at_window;
        at_pointer = ready.queue.at_pointer;
        at_qp = ap (λ (x : Machine). x.qps ready.queue.qp) frame ∙ ready.queue.at_qp;
        at_sq = ap (λ (x : Machine). x.buffs ready.queue.q.sq) frame ∙ rw newer ready.queue.at_sq;
      } in
      let request_fits : IsRequest r = record {
        wrid = omega arith;
        laddr = omega (arith, ready.room);
        length = ready.small;
        remote_offset = fits;
        r_key = omega arith;
        send_small_payload0 = omega arith;
        send_small_payload1 = omega arith;
        send_small_payload2 = omega arith;
        send_small_payload3 = omega arith;
        immdt_data = omega arith;
      } in
      let (v, m3, m4, m5, created, sent, dumped, over, frame') =
        hand_over env m2 b.rdma_dev r sq queue ready.real request_fits ready.host ready.at
          ready.fits 1 in
      let rn_at : m2.rn_devs b.rn_dev
          ≡ some (record ready.rn { dev_buffer_offset = start + o.payload_size }) =
        ap (λ (x : Machine). x.rn_devs b.rn_dev) frame ∙ rw (==-refl b.rn_dev) refl in
      let buf_at : allocated.buffs m.next ≡ some device_buffer = rw (==-refl m.next) refl in
      let same_file : m5.file ≡ m2.file = ap (λ (x : Machine). x.file) frame' in
      let same_memory : m2.memory ≡ m.memory = ap (λ (x : Machine). x.memory) frame in
      (
        m5,
        rw allocation (
            rw (buf_at, deref)
              (rw ran
                (rw (rn_at, deref) (rw ready.points (rw created (rw sent (rw dumped refl))))))),
        rw same_file content,
        record { element = rw same_memory at over.element; rung = over.rung },
      )
