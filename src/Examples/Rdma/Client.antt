-- ===== src/Examples/Rdma/Client.antt =====
-- examples/rdma_test: what the client of write.c asks the card for.
use reco_nic.Prelude.{
  ℕ, ◌+◌, ◌*◌, ◌^◌, ◌<◌, ◌≡◌, ◌≢◌, refl, sym, ap, ◌∙◌, some, false, arith, ==-refl, u32,
}
use reco_nic.Machine.{Machine, Env, Ptr, RdmaBuff, ret}
use reco_nic.Machine.Trace.{last_write}
use reco_nic.Reconic.Address.{is_device_address}
use reco_nic.Rdma.Wqe.{Request, create_a_wqe, wqe_size}
use reco_nic.Rdma.Wqe.Laws.{HasQueue, create_a_wqe-host}
use reco_nic.Rdma.Wqe.Element.{IsRequest, Posted}
use reco_nic.Rdma.Send.{rdma_post_send}
use reco_nic.Rdma.Send.Post.{HasQp, doorbell, rdma_post_send-returns}
use reco_nic.Rdma.Dump.{dump_registers}
use reco_nic.Rdma.Dump.Laws.{dump_registers-OnlyReads}

-- A transfer of `length` bytes between the local address `laddr` and the peer's `remote_offset`,
-- under the key `key`.
abbrev pub transfer : (laddr length opcode remote_offset key : ℕ) → Request
transfer laddr length opcode remote_offset key = record {
  wrid = 0;
  laddr = laddr;
  length = length;
  opcode = opcode;
  remote_offset = remote_offset;
  r_key = key;
  send_small_payload0 = 0;
  send_small_payload1 = 0;
  send_small_payload2 = 0;
  send_small_payload3 = 0;
  immdt_data = 0;
}

-- A request that has been handed over: its element is in slot 0 of the send queue, and the doorbell
-- has the next producer index. The host's memory outside the slot is as it was.
pub record HandedOver (m m' : Machine) (axil_ctl sq_pidb slot : ℕ) (r : Request) : Type 0 where
  pub element : Posted m.memory m'.memory slot r
  pub rung : last_write m'.bus (doorbell axil_ctl 2) ≡ some (u32 (u32 (sq_pidb + 1)))

join :
    (m m1 m2 m3 : Machine)
    → m1 ≡ record m { memory = m1.memory }
    → m2 ≡ record m1 { bus = m2.bus; qps = m2.qps }
    → m3 ≡ record m2 { bus = m3.bus }
    → m3 ≡ record m { memory = m3.memory; bus = m3.bus; qps = m3.qps }
join m m1 m2 m3 f1 f2 f3 =
    let memory : m1.memory ≡ m3.memory =
      sym (ap (λ (x : Machine). x.memory) f3 ∙ ap (λ (x : Machine). x.memory) f2) in
    let qps : m2.qps ≡ m3.qps = sym (ap (λ (x : Machine). x.qps) f3) in
    f3
    ∙ ap (λ (x : Machine). record x { bus = m3.bus }) f2
    ∙ ap (λ (x : Machine). record x { bus = m3.bus; qps = m2.qps }) f1
    ∙ λ i. record m { memory = memory i; bus = m3.bus; qps = qps i }

-- An element for slot 0, a post and a dump, as each client does them.
module _ (env : Env) (m : Machine) (p : Ptr) (r : Request) (sq : RdmaBuff) (h : HasQueue m p 2 sq)
    (real : p ≢ 0) (fits : IsRequest r) (host : is_device_address sq.dma_addr ≡ false)
    (at : 0 < sq.buffer) (room : sq.buffer < 2 ^ 64) where
  pub hand_over :
      (is_sender : ℕ)
      → (v : ℕ) × (m1 m2 m3 : Machine) × (create_a_wqe env p 2 0 r m ≡ ret tt m1)
        × (rdma_post_send env p 2 m1 ≡ ret v m2)
        × (dump_registers env p is_sender 2 m2 ≡ ret tt m3)
        × HandedOver m m3 h.d.axil_ctl h.q.sq_pidb sq.buffer r
        × (m3 ≡ record m { memory = m3.memory; bus = m3.bus; qps = m3.qps })
  hand_over is_sender =
      let (m1, created, element, frame1) =
        create_a_wqe-host env m p 2 0 r sq h fits host at (omega arith) in
      let slot : sq.buffer + 0 * wqe_size ≡ sq.buffer = omega arith in
      let qp : HasQp m1 p 2 h.d h.qp h.q = record {
        real = real;
        at_dev = ap (λ (x : Machine). x.rdma_devs p) frame1 ∙ h.at_dev;
        at_pointer = h.at_pointer;
        at_qp = ap (λ (x : Machine). x.qps h.qp) frame1 ∙ h.at_qp;
      } in
      let (v, c, m2, sent, _, rang, at_qp2, frame2) =
        rdma_post_send-returns env m1 p 2 h.d h.qp h.q qp in
      let at_dev2 : m2.rdma_devs p ≡ some h.d =
        ap (λ (x : Machine). x.rdma_devs p) frame2 ∙ qp.at_dev in
      let (m3, dumped, reads) = dump_registers-OnlyReads env m2 p is_sender 2 h.d at_dev2 in
      let same_memory : m3.memory ≡ m1.memory =
        ap (λ (x : Machine). x.memory) reads.1 ∙ ap (λ (x : Machine). x.memory) frame2 in
      (
        v,
        m1,
        m2,
        m3,
        created,
        sent,
        dumped,
        record {
          element = rw same_memory (rw slot at element);
          rung =
              reads.0 (doorbell h.d.axil_ctl 2)
              ∙ rang (doorbell h.d.axil_ctl 2)
              ∙ rw (==-refl (doorbell h.d.axil_ctl 2)) refl;
        },
        join m m1 m2 m3 frame1 frame2 reads.1,
      )
