-- ===== src/Examples/Rdma/BatchLaws.antt =====
-- examples/rdma_test/write_batch.c and read_batch.c: what the elements of a batch ask for.
use reco_nic.Prelude.{
  ℕ, ◌+◌, ◌*◌, ◌^◌, ◌<◌, ◌≡◌, refl, ap, ◌∙◌, some, true, false, arith, ==-refl, ◌==◌, u32, le→leb,
  List, length,
}
use reco_nic.Machine.{Machine, Env, Ptr, RdmaBuff, ret, deref}
use reco_nic.Memory.Content.{store}
use reco_nic.Memory.Device.{IsRegular, replay}
use reco_nic.Registers.{rnic_op_write, rnic_op_read}
use reco_nic.Reconic.Address.{device_mem_offset}
use reco_nic.Reconic.Buffer.{start_offset, allocate_rdma_buffer, device_mem}
use reco_nic.Reconic.Buffer.Laws.{with_device_buffer, allocate_rdma_buffer-device}
use reco_nic.Rdma.Wqe.{wqe_size}
use reco_nic.Rdma.Wqe.Laws.{HasQueue}
use reco_nic.Rdma.Wqe.Element.{IsRequest}
use reco_nic.Examples.Rdma.Setup.{Options, Shell, Objects}
use reco_nic.Examples.Rdma.Steps.{create_batch, fill_buffer}
use reco_nic.Examples.Rdma.Batches.{write_batch_create, read_batch_create, total_payload_size}
use reco_nic.Examples.Rdma.Client.{transfer}
use reco_nic.Examples.Rdma.WriteLaws.{IsSetUp, fill_buffer-card}
use reco_nic.Examples.Rdma.BatchElements.{AllAsk, create_batch-same}

module _ (env : Env) (initial : ℕ → ℕ) (shell : Shell) (o : Options) (b : Objects)
    (sw_golden : List ℕ) (sq : RdmaBuff) (m : Machine) (regular : IsRegular env initial)
    (enough_memory : (n : ℕ) → env.malloc_fails n ≡ false)
    (ready : IsSetUp m b (o.wqe_count * o.payload_size) sq)
    (whole : length sw_golden ≡ o.wqe_count * o.payload_size) (remote_offset : ℕ)
    (remote : remote_offset < 2 ^ 64) (narrow : o.payload_size < 2 ^ 32)
    (slots : sq.buffer + o.wqe_count * wqe_size < 2 ^ 64) where
  -- The bytes of the whole batch, and where its buffer starts on the card.
  abbrev total : ℕ
  total = o.wqe_count * o.payload_size

  abbrev start : ℕ
  start = start_offset ready.rn.dev_buffer_offset total

  abbrev batch_buffer : RdmaBuff
  batch_buffer = record {
    buffer = device_mem_offset + start;
    dma_addr = device_mem_offset + start;
    buf_size = total;
  }

  abbrev allocated : Machine
  allocated = with_device_buffer m b.rn_dev ready.rn start total

  allocation : allocate_rdma_buffer env b.rn_dev (u32 total) device_mem m ≡ ret m.next allocated
  allocation =
      let fits : u32 total ≡ total = omega (arith, ready.small) in
      rw fits (
        allocate_rdma_buffer-device env b.rn_dev enough_memory m ready.rn total ready.fresh
          ready.at_rn ready.low ready.small
        ∙ rw (le→leb (start + total) 4294967296 ready.room) refl)

  -- The elements, on a machine that differs in the card's memory only.
  created :
      (opcode : ℕ) (m2 : Machine)
      → m2 ≡ record allocated { file = m2.file }
      → let r = transfer (device_mem_offset + start) o.payload_size opcode remote_offset 8 in
        (m' : Machine) × (create_batch env o.wqe_count 0 b.rdma_dev r m2 ≡ ret tt m')
        × AllAsk m'.memory sq.buffer o.wqe_count r
        × (m'.buffs m.next ≡ some batch_buffer)
        × (m' ≡ record m2 { memory = m'.memory })
  created opcode m2 frame =
      let newer : (m.next == ready.queue.q.sq) ≡ false = ground (arith, ready.old) in
      let queue : HasQueue m2 b.rdma_dev 2 sq = record {
        d = ready.queue.d;
        qp = ready.queue.qp;
        q = ready.queue.q;
        at_dev = ap (λ (x : Machine). x.rdma_devs b.rdma_dev) frame ∙ ready.queue.at_dev;
        at_window =
            ap (λ (x : Machine). x.win_sizes ready.queue.d.win_size) frame ∙ ready.queue.at_window;
        at_pointer = ready.queue.at_pointer;
        at_qp = ap (λ (x : Machine). x.qps ready.queue.qp) frame ∙ ready.queue.at_qp;
        at_sq = ap (λ (x : Machine). x.buffs ready.queue.q.sq) frame ∙ rw newer ready.queue.at_sq;
      } in
      let r = transfer (device_mem_offset + start) o.payload_size opcode remote_offset 8 in
      let request_fits : IsRequest r = record {
        wrid = omega arith;
        laddr = omega (arith, ready.room);
        length = narrow;
        remote_offset = remote;
        r_key = omega arith;
        send_small_payload0 = omega arith;
        send_small_payload1 = omega arith;
        send_small_payload2 = omega arith;
        send_small_payload3 = omega arith;
        immdt_data = omega arith;
      } in
      let (m', run, asks, same) =
        create_batch-same env o.wqe_count b.rdma_dev r sq m2 queue request_fits ready.host ready.at
          slots in
      (
        m',
        run,
        asks,
        ap (λ (x : Machine). x.buffs m.next) same
            ∙ ap (λ (x : Machine). x.buffs m.next) frame
            ∙ rw (==-refl m.next) refl,
        same,
      )

  -- The clients reach the device through `rn_dev->rdma_dev`.
  through :
      (opcode : ℕ) (m2 : Machine)
      → let r = transfer (device_mem_offset + start) o.payload_size opcode remote_offset 8 in
        create_batch env o.wqe_count 0 ready.rn.rdma_dev r m2
        ≡ create_batch env o.wqe_count 0 b.rdma_dev r m2
  through opcode m2 =
      let r = transfer (device_mem_offset + start) o.payload_size opcode remote_offset 8 in
      ap (λ (p : Ptr). create_batch env o.wqe_count 0 p r m2) ready.points

  -- The clients of both batch programs up to their last element, on a regular device that has been
  -- set up with the send queue in the host's memory, with room for `wqe_count` elements there, for
  -- the objects of the program, and for a payload of `wqe_count * payload_size` bytes, fewer than
  -- 2^32, on the card. Each goes through and has a buffer for all of these bytes, but every one of
  -- its elements asks for the same `payload_size` bytes: those at the start of the buffer, at the
  -- same remote address.
  pub batch_clients-same :
      ((m' : Machine) × (write_batch_create env shell o b sw_golden remote_offset m ≡ ret true m')
        × (m'.buffs m.next ≡ some batch_buffer)
        × ((replay initial m'.file).content ≡ store (replay initial m.file).content start sw_golden)
        × AllAsk m'.memory sq.buffer o.wqe_count
            (transfer (device_mem_offset + start) o.payload_size rnic_op_write remote_offset 8))
      × ((m' : Machine) × (read_batch_create env shell o b sw_golden remote_offset m ≡ ret tt m')
          × (m'.buffs m.next ≡ some batch_buffer)
          × AllAsk m'.memory sq.buffer o.wqe_count
              (transfer (device_mem_offset + start) o.payload_size rnic_op_read remote_offset 8))
  unfolding write_batch_create read_batch_create total_payload_size
  batch_clients-same =
      let fits : u32 total ≡ total = omega (arith, ready.small) in
      let (m2, filled, content, frame) =
        fill_buffer-card env initial sw_golden total o.payload_size start batch_buffer allocated
          regular whole (omega (arith, ready.room)) refl in
      let buf_at : allocated.buffs m.next ≡ some batch_buffer = rw (==-refl m.next) refl in
      let rn_at : allocated.rn_devs b.rn_dev
          ≡ some (record ready.rn { dev_buffer_offset = start + total }) =
        rw (==-refl b.rn_dev) refl in
      let rn_at2 : m2.rn_devs b.rn_dev
          ≡ some (record ready.rn { dev_buffer_offset = start + total }) =
        ap (λ (x : Machine). x.rn_devs b.rn_dev) frame ∙ rn_at in
      let filled' : fill_buffer env sw_golden (u32 total) o.payload_size batch_buffer allocated
          ≡ ret true m2 =
        ap (λ (n : ℕ). fill_buffer env sw_golden n o.payload_size batch_buffer allocated) fits
        ∙ filled in
      let (m3, wrote, writes, write_buffer, same3) = created rnic_op_write m2 frame in
      let (m4, read, reads, read_buffer, _) = created rnic_op_read allocated refl in
      (
        (
          m3,
          rw allocation (
              rw (buf_at, deref)
                (rw filled' (rw (rn_at2, deref) (rw (through rnic_op_write m2 ∙ wrote) refl)))),
          write_buffer,
          ap (λ (x : Machine). (replay initial x.file).content) same3 ∙ content,
          writes,
        ),
        (
          m4,
          rw allocation (
              rw (buf_at, deref)
                (rw (rn_at, deref) (rw (through rnic_op_read allocated ∙ read) refl))),
          read_buffer,
          reads,
        ),
      )
