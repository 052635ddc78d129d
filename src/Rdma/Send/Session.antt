-- ===== src/Rdma/Send/Session.antt =====
-- lib/rdma_api.c: a program that posts again and again, on any card.
use reco_nic.Prelude.{
  ℕ, zero, suc, ◌+◌, ◌%◌, ◌^◌, ◌≡◌, refl, ap, ◌∙◌, List, [], ◌∷◌, some, ◌⊎◌, arith, ==-refl,
  minus_one,
}
use reco_nic.Machine.{Machine, Env, Cmd, Ptr, RdmaDev, RdmaQp, ret, pure, ◌>>=◌}
use reco_nic.Machine.Trace.{last_write}
use reco_nic.Rdma.Send.{rdma_post_send}
use reco_nic.Rdma.Send.Post.{HasQp, doorbell, posted, rdma_post_send-returns}

-- `n` posts one after the other, with what they return.
unfoldable pub post_sends : Env → (p qpid n : ℕ) → Cmd (List ℕ)
post_sends env p qpid zero = pure []
post_sends env p qpid (suc n) = do
  r ← rdma_post_send env p qpid
  rs ← post_sends env p qpid n
  pure (r ∷ rs)

-- `n` results, each of them 0 or -1.
abbrev pub Reported : ℕ → List ℕ → Type 0
Reported zero [] = Unit
Reported zero (r ∷ rs) = ⊥
Reported (suc n) [] = ⊥
Reported (suc n) (r ∷ rs) = ((r ≡ 0) ⊎ (r ≡ minus_one)) × Reported n rs

-- However the card answers, a row of `n + 1` posts on a queue pair returns, each post with 0 or -1.
-- The software's producer and consumer index have then both advanced by `n + 1`, modulo 2^32, and
-- the doorbell register holds the producer index.
pub post_sends-indices :
    (env : Env) (p qpid : ℕ) (d : RdmaDev) (qp : Ptr) (n : ℕ) (m : Machine) (q : RdmaQp)
    → HasQp m p qpid d qp q
    → (rs : List ℕ) × (m' : Machine) × (q' : RdmaQp) × (post_sends env p qpid (suc n) m ≡ ret rs m')
      × Reported (suc n) rs
      × (m'.qps qp ≡ some q')
      × (q'.sq_pidb ≡ (q.sq_pidb + suc n) % 2 ^ 32)
      × (q'.sq_cidb ≡ (q.sq_cidb + suc n) % 2 ^ 32)
      × (last_write m'.bus (doorbell d.axil_ctl qpid) ≡ some ((q.sq_pidb + suc n) % 2 ^ 32))
unfolding post_sends
post_sends-indices env p qpid d qp zero m q h =
    let (r, v, m1, run, which, rang, at_qp, frame) = rdma_post_send-returns env m p qpid d qp q h in
    (
      r ∷ [],
      m1,
      posted q v,
      rw run refl,
      (which, tt),
      at_qp,
      omega arith,
      omega arith,
      rang (doorbell d.axil_ctl qpid)
          ∙ rw (==-refl (doorbell d.axil_ctl qpid)) (ap some (omega arith)),
    )
post_sends-indices env p qpid d qp (suc n) m q h =
    let (r, v, m1, run, which, rang, at_qp, frame) = rdma_post_send-returns env m p qpid d qp q h in
    let h1 : HasQp m1 p qpid d qp (posted q v) = record {
      real = h.real;
      at_dev = ap (λ (x : Machine). x.rdma_devs p) frame ∙ h.at_dev;
      at_pointer = h.at_pointer;
      at_qp = at_qp;
    } in
    let (rs, m', q', rest, reported, at_qp', pidb, cidb, bell) =
      post_sends-indices env p qpid d qp n m1 (posted q v) h1 in
    (
      r ∷ rs,
      m',
      q',
      rw run (rw rest refl),
      (which, reported),
      at_qp',
      omega arith,
      omega arith,
      bell ∙ ap some (omega arith),
    )
