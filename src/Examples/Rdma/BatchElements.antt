-- ===== src/Examples/Rdma/BatchElements.antt =====
-- examples/rdma_test/write_batch.c and read_batch.c: the loop that creates the elements of a batch.
use reco_nic.Prelude.{
  ℕ, zero, suc, ◌+◌, ◌*◌, ◌^◌, ◌<◌, ◌≡◌, refl, ap, ◌∙◌, false, arith, length, replicate,
}
use mathlib.Core.Path.{fun_ext}
use reco_nic.Machine.{Machine, Env, Ptr, RdmaBuff, Cmd, ret, ◌>>◌}
use reco_nic.Memory.Content.{load}
use reco_nic.Reconic.Address.{is_device_address}
use reco_nic.Rdma.Wqe.{Request, wqe_size, create_a_wqe}
use reco_nic.Rdma.Wqe.Codec.{wqe_of_bytes}
use reco_nic.Rdma.Wqe.Laws.{HasQueue}
use reco_nic.Rdma.Wqe.Element.{IsRequest, Asks}
use reco_nic.Rdma.Wqe.Batch.{create_wqes, AreRequests, AskInOrder, create_wqes-AskInOrder}
use reco_nic.Examples.Rdma.Steps.{create_batch}

create_batch-create_wqes :
    (env : Env) (n wqe_idx : ℕ) (p : Ptr) (r : Request) (m : Machine)
    → create_batch env n wqe_idx p r m ≡ create_wqes env p 2 wqe_idx (replicate n r) m
unfolding create_batch create_wqes
create_batch-create_wqes env zero wqe_idx p r m = refl
create_batch-create_wqes env (suc n) wqe_idx p r m =
    ap (λ (k : Cmd (Unit {0})). (create_a_wqe env p 2 wqe_idx r >> k) m)
      (fun_ext (create_batch-create_wqes env n (wqe_idx + 1) p r))

all_requests : (n : ℕ) (r : Request) → IsRequest r → AreRequests (replicate n r)
all_requests zero r h = tt
all_requests (suc n) r h = (h, all_requests n r h)

length-replicate : (n : ℕ) (r : Request) → length (replicate n r) ≡ n
length-replicate zero r = refl
length-replicate (suc n) r = ap suc (length-replicate n r)

-- The first `n` slots of a queue at `queue` ask for the same request.
abbrev pub AllAsk : (ℕ → ℕ) → (queue n : ℕ) → Request → Type 0
AllAsk memory queue n r =
    (i : ℕ) → i < n → Asks (wqe_of_bytes (load memory (queue + i * wqe_size) wqe_size)) r

each_asks :
    (n i slot : ℕ) (r : Request) (memory : ℕ → ℕ)
    → i < n
    → AskInOrder memory slot (replicate n r)
    → Asks (wqe_of_bytes (load memory (slot + i * wqe_size) wqe_size)) r
each_asks zero i slot r memory h asks = absurd (omega arith)
each_asks (suc n) zero slot r memory h asks =
    let here : slot ≡ slot + 0 * wqe_size = omega arith in rw here at asks.0
each_asks (suc n) (suc i) slot r memory h asks =
    let next : (slot + wqe_size) + i * wqe_size ≡ slot + suc i * wqe_size = omega arith in
    rw next at (each_asks n i (slot + wqe_size) r memory (omega arith) asks.1)

-- All elements of a batch ask for the same transfer.
pub create_batch-same :
    (env : Env) (n : ℕ) (p : Ptr) (r : Request) (sq : RdmaBuff) (m : Machine)
    → HasQueue m p 2 sq
    → IsRequest r
    → is_device_address sq.dma_addr ≡ false
    → 0 < sq.buffer
    → sq.buffer + n * wqe_size < 2 ^ 64
    → (m' : Machine) × (create_batch env n 0 p r m ≡ ret tt m')
      × AllAsk m'.memory sq.buffer n r
      × (m' ≡ record m { memory = m'.memory })
create_batch-same env n p r sq m h fits host at room =
    let len = length-replicate n r in
    let (m', run, asks, _, _, frame) =
      create_wqes-AskInOrder env p 2 sq (replicate n r) 0 m h (all_requests n r fits) host at
        (omega (arith, len, room)) in
    (
      m',
      create_batch-create_wqes env n 0 p r m ∙ run,
      λ i below.
          let slot : (sq.buffer + 0 * wqe_size) + i * wqe_size ≡ sq.buffer + i * wqe_size =
            omega arith in
          rw slot at (each_asks n i (sq.buffer + 0 * wqe_size) r m'.memory below asks),
      frame,
    )
