-- ===== src/Rdma/Wqe/Batch.antt =====
-- lib/rdma_api.c, `create_a_wqe`: a batch of elements in a send queue in host memory.
use reco_nic.Prelude.{
  ℕ, zero, suc, ◌+◌, ◌*◌, ◌^◌, ◌≤◌, ◌<◌, ◌≡◌, refl, ap, ap₂, ◌∙◌, List, [], ◌∷◌, inl, inr, false,
  arith, length,
}
use reco_nic.Machine.{Machine, Env, Cmd, RdmaBuff, ret, pure, ◌>>◌}
use reco_nic.Reconic.Address.{is_device_address}
use reco_nic.Memory.Content.{load}
use reco_nic.Rdma.Wqe.{Request, create_a_wqe, wqe_size}
use reco_nic.Rdma.Wqe.Codec.{wqe_of_bytes}
use reco_nic.Rdma.Wqe.Laws.{HasQueue, create_a_wqe-host}
use reco_nic.Rdma.Wqe.Element.{IsRequest, Asks}

-- The requests in the slots from `wqe_idx` on.
unfoldable pub create_wqes : Env → (p qpid wqe_idx : ℕ) → List Request → Cmd (Unit {0})
create_wqes env p qpid wqe_idx [] = pure tt
create_wqes env p qpid wqe_idx (r ∷ rs) = do
  create_a_wqe env p qpid wqe_idx r
  create_wqes env p qpid (wqe_idx + 1) rs

abbrev pub AreRequests : List Request → Type 0
AreRequests [] = Unit
AreRequests (r ∷ rs) = IsRequest r × AreRequests rs

-- The slots from the address `slot` on ask for what the requests say, in their order.
abbrev pub AskInOrder : (ℕ → ℕ) → (slot : ℕ) → List Request → Type 0
AskInOrder memory slot [] = Unit
AskInOrder memory slot (r ∷ rs) =
    Asks (wqe_of_bytes (load memory slot wqe_size)) r × AskInOrder memory (slot + wqe_size) rs

load_same :
    (f g : ℕ → ℕ) (p n : ℕ) → ((a : ℕ) → p ≤ a → a < p + n → f a ≡ g a) → load f p n ≡ load g p n
unfolding load
load_same f g p zero same = refl
load_same f g p (suc n) same =
    ap₂ ◌∷◌ (same p (omega arith) (omega arith))
      (load_same f g (p + 1) n (λ a lo hi. same a (omega arith) (omega arith)))

-- A batch of elements, written to consecutive slots of a send queue in host memory that lies within
-- the address space: the calls return, every slot asks for its own request, none of them having
-- been overwritten by a later one, and memory outside these slots and all else is as it was.
pub create_wqes-AskInOrder :
    (env : Env) (p qpid : ℕ) (sq : RdmaBuff) (rs : List Request) (wqe_idx : ℕ) (m : Machine)
    → HasQueue m p qpid sq
    → AreRequests rs
    → is_device_address sq.dma_addr ≡ false
    → 0 < sq.buffer
    → sq.buffer + (wqe_idx + length rs) * wqe_size < 2 ^ 64
    → (m' : Machine) × (create_wqes env p qpid wqe_idx rs m ≡ ret tt m')
      × AskInOrder m'.memory (sq.buffer + wqe_idx * wqe_size) rs
      × ((a : ℕ) → a < sq.buffer + wqe_idx * wqe_size → m'.memory a ≡ m.memory a)
      × ((a : ℕ) → sq.buffer + (wqe_idx + length rs) * wqe_size ≤ a → m'.memory a ≡ m.memory a)
      × (m' ≡ record m { memory = m'.memory })
unfolding create_wqes
create_wqes-AskInOrder env p qpid sq [] wqe_idx m h fit host real wrap =
    (m, refl, tt, (λ a lo. refl), (λ a hi. refl), refl)
create_wqes-AskInOrder env p qpid sq (r ∷ rs) wqe_idx m h fit host real wrap =
    let slot = sq.buffer + wqe_idx * wqe_size in
    let (m1, run, posted, frame) =
      create_a_wqe-host env m p qpid wqe_idx r sq h fit.0 host real (omega arith) in
    let h1 : HasQueue m1 p qpid sq = record {
      d = h.d;
      qp = h.qp;
      q = h.q;
      at_dev = ap (λ (x : Machine). x.rdma_devs p) frame ∙ h.at_dev;
      at_window = ap (λ (x : Machine). x.win_sizes h.d.win_size) frame ∙ h.at_window;
      at_pointer = h.at_pointer;
      at_qp = ap (λ (x : Machine). x.qps h.qp) frame ∙ h.at_qp;
      at_sq = ap (λ (x : Machine). x.buffs h.q.sq) frame ∙ h.at_sq;
    } in
    let (m', rest, asks, below, above, same) =
      create_wqes-AskInOrder env p qpid sq rs (wqe_idx + 1) m1 h1 fit.1 host real (omega arith) in
    let kept : load m'.memory slot wqe_size ≡ load m1.memory slot wqe_size =
      load_same m'.memory m1.memory slot wqe_size (λ a lo hi. below a (omega arith)) in
    let next : sq.buffer + (wqe_idx + 1) * wqe_size ≡ slot + wqe_size = omega arith in
    (
      m',
      rw run (rw rest refl),
      (rw kept posted.element, rw next at asks),
      (λ a lo. below a (omega arith) ∙ posted.elsewhere a (inl lo)),
      (λ a hi. above a (omega arith) ∙ posted.elsewhere a (inr (omega arith))),
      same ∙ ap (λ (x : Machine). record x { memory = m'.memory }) frame,
    )
