-- ===== src/Rdma/Wqe/Laws.antt =====
-- lib/rdma_api.c, `create_a_wqe`: what stands in the send queue's slot afterwards.
use reco_nic.Prelude.{
  ℕ, ◌+◌, ◌*◌, ◌%◌, ◌^◌, ◌<◌, ◌≡◌, refl, sym, ap, ◌∙◌, some, true, false, arith, ◌==◌, get_elem?,
  length, u64,
}
use reco_nic.Machine.{Machine, Env, Ptr, RdmaDev, RdmaQp, RdmaBuff, ret, deref, malloc}
use reco_nic.Reconic.Address.{is_device_address}
use reco_nic.Reconic.Address.Laws.{bar_window}
use reco_nic.Memory.{write_from_buffer}
use reco_nic.Memory.Content.{store}
use reco_nic.Memory.Device.{IsRegular, replay}
use reco_nic.Memory.Laws.{write_from_buffer-store}
use reco_nic.Rdma.Qp.{qp_pointer}
use reco_nic.Rdma.Wqe.{Request, new_wqe, wqe_bytes, wqe_size, create_a_wqe}
use reco_nic.Rdma.Wqe.Element.{IsRequest, length-wqe_bytes, Posted, store-Posted}

-- The objects that `create_a_wqe` reads, on a device whose bridge window is set.
pub record HasQueue (m : Machine) (p qpid : ℕ) (sq : RdmaBuff) : Type 0 where
  pub d : RdmaDev
  pub qp : Ptr
  pub q : RdmaQp
  pub at_dev : m.rdma_devs p ≡ some d
  pub at_window : m.win_sizes d.win_size ≡ some bar_window
  pub at_pointer : get_elem? d.qps_ptr qpid ≡ some qp
  pub at_qp : m.qps qp ≡ some q
  pub at_sq : m.buffs q.sq ≡ some sq

-- On a send queue in host memory, `create_a_wqe` returns with the element in slot `wqe_idx`, which
-- decodes to the request, the payload's address as the card is to use it. All other memory, the
-- registers, the card's memory and every object are as they were.
pub create_a_wqe-host :
    (env : Env) (m : Machine) (p qpid wqe_idx : ℕ) (r : Request) (sq : RdmaBuff)
    → HasQueue m p qpid sq
    → IsRequest r
    → is_device_address sq.dma_addr ≡ false
    → 0 < sq.buffer
    → sq.buffer + wqe_idx * wqe_size < 2 ^ 64
    → (m' : Machine) × (create_a_wqe env p qpid wqe_idx r m ≡ ret tt m')
      × Posted m.memory m'.memory (sq.buffer + wqe_idx * wqe_size) r
      × (m' ≡ record m { memory = m'.memory })
unfolding create_a_wqe
create_a_wqe-host env m p qpid wqe_idx r sq h fits host real wrap =
    let slot = sq.buffer + wqe_idx * wqe_size in
    let no_wrap : u64 (sq.buffer + wqe_idx * wqe_size) ≡ sq.buffer + wqe_idx * wqe_size =
      omega arith in
    let not_zero : ((sq.buffer + wqe_idx * wqe_size) == 0) ≡ false = ground arith in
    (
      record m { memory = store m.memory slot (wqe_bytes (new_wqe 0xffffffff 0xff r)) },
      rw (h.at_dev, deref)
          (rw (h.at_window, deref)
            (rw (h.at_pointer, qp_pointer)
              (rw (h.at_qp, deref)
                (rw (h.at_sq, deref) (rw host (rw no_wrap (rw not_zero refl))))))),
      store-Posted m.memory slot r fits,
      refl,
    )

-- On a send queue in the card's memory, with a regular character device and a `malloc` that does
-- not fail, `create_a_wqe` returns with the element in slot `wqe_idx` of the card's memory, which
-- decodes to the request. The rest of the card's memory, host memory, the registers and every
-- object are as they were.
pub create_a_wqe-device :
    (env : Env) (initial : ℕ → ℕ) (m : Machine) (p qpid wqe_idx : ℕ) (r : Request) (sq : RdmaBuff)
    → IsRegular env initial
    → HasQueue m p qpid sq
    → IsRequest r
    → is_device_address sq.dma_addr ≡ true
    → env.malloc_fails m.next ≡ false
    → 0 < m.next
    → (m' : Machine) × (create_a_wqe env p qpid wqe_idx r m ≡ ret tt m')
      × Posted
          (replay initial m.file).content
          (replay initial m'.file).content
          ((sq.dma_addr + wqe_idx * wqe_size) % 2 ^ 64 % 2 ^ 37)
          r
      × (m' ≡ record m { file = m'.file; next = m.next + 1 })
unfolding create_a_wqe
create_a_wqe-device env initial m p qpid wqe_idx r sq regular h fits card fresh real =
    let e = new_wqe 0xffffffff 0xff r in
    let m1 = record m { next = m.next + 1 } in
    let not_zero : (m.next == 0) ≡ false = ground arith in
    let (m', wrote, content, frame) =
      write_from_buffer-store env initial (wqe_bytes e) (u64 (sq.dma_addr + wqe_idx * wqe_size)) m1
        regular in
    let sent : write_from_buffer env (wqe_bytes e) wqe_size (u64 (sq.dma_addr + wqe_idx * wqe_size))
          m1
        ≡ ret (some (length (wqe_bytes e))) m' =
      ap
        (λ (n : ℕ).
          write_from_buffer env (wqe_bytes e) n (u64 (sq.dma_addr + wqe_idx * wqe_size)) m1)
        (sym (length-wqe_bytes e))
      ∙ wrote in
    let slot = (sq.dma_addr + wqe_idx * wqe_size) % 2 ^ 64 % 2 ^ 37 in
    (
      m',
      rw (h.at_dev, deref)
          (rw (h.at_window, deref)
            (rw (h.at_pointer, qp_pointer)
              (rw (h.at_qp, deref)
                (rw (h.at_sq, deref)
                  (rw card (rw (fresh, malloc) (rw not_zero (rw sent refl)))))))),
      rw content (store-Posted (replay initial m.file).content slot r fits),
      frame,
    )
