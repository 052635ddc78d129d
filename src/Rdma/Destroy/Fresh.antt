-- ===== src/Rdma/Destroy/Fresh.antt =====
-- lib/rdma_api.c: `create_rdma_dev`, and `destroy_rdma_dev` of a device that has no queue pair yet.
use reco_nic.Prelude.{
  ℕ, zero, suc, ◌+◌, ◌<◌, ◌≡◌, ◌≢◌, refl, ◌∷◌, some, none, false, Bool-cases, inl, inr, ◌&&◌, arith,
  ltb, ◌==◌, ==-refl, replicate, get_elem?,
}
use reco_nic.Machine.{Machine, Env, Ptr, RnDev, RdmaDev, write, ret, null, update, deref}
use reco_nic.Registers.{rn_rdma_gcsr_xrnicconf}
use reco_nic.Control.{write32_data}
use reco_nic.Rdma.Qp.{qp_pointer}
use reco_nic.Rdma.Device.{create_rdma_dev, unset_csr}
use reco_nic.Rdma.Destroy.{destroy_rdma_qp, destroy_qps, destroy_rdma_dev}

get_elem?-replicate : (n i : ℕ) → i < n → get_elem? (replicate n null) i ≡ some null
get_elem?-replicate zero i lt = absurd (omega arith)
get_elem?-replicate (suc n) zero lt = refl
get_elem?-replicate (suc n) (suc i) lt = get_elem?-replicate n i (omega arith)

-- The loop does nothing on an array of null pointers.
destroy_qps-null :
    (env : Env) (fuel left i n : ℕ) (p : Ptr) (d : RdmaDev) (m : Machine)
    → m.rdma_devs p ≡ some d
    → d.qps_ptr ≡ replicate n null
    → i + left ≡ n
    → destroy_qps env fuel left i p m ≡ ret tt m
unfolding destroy_qps destroy_rdma_qp
destroy_qps-null env fuel zero i n p d m at_p empty whole = refl
destroy_qps-null env fuel (suc left) i n p d m at_p empty whole =
    rw (at_p, deref)
      (rw (empty, qp_pointer)
        (rw (get_elem?-replicate n i (omega arith))
          (destroy_qps-null env fuel left (i + 1) n p d m at_p empty (omega arith))))

-- A device that has just been created, with any number of queue pairs, can be destroyed: both calls
-- return, the object of the global registers that the first one allocated is freed by the second
-- one, and the only access to the card is the write that disables the engine.
pub destroy_rdma_dev-create_rdma_dev :
    (env : Env) (fuel : ℕ) (m : Machine) (p : Ptr) (rn : RnDev)
    → ((n : ℕ) → env.malloc_fails n ≡ false)
    → m.next ≢ 0
    → m.rn_devs p ≡ some rn
    → (m1 m2 : Machine) × (create_rdma_dev env p m ≡ ret m.next m1)
      × (destroy_rdma_dev env fuel m.next m1 ≡ ret 0 m2)
      × (m1.glb_csrs (m.next + 1) ≡ some unset_csr)
      × (m2.glb_csrs (m.next + 1) ≡ none)
      × (m2.bus ≡ write (rn.axil_ctl + rn_rdma_gcsr_xrnicconf) 0 ∷ m.bus)
unfolding create_rdma_dev destroy_rdma_dev write32_data
destroy_rdma_dev-create_rdma_dev env fuel m p rn enough fresh at_p =
    let d : RdmaDev = record {
      rn_dev = p;
      glb_csr = m.next + 1;
      qps_ptr = replicate rn.num_qp null;
      axil_ctl = rn.axil_ctl;
      num_qp = rn.num_qp;
      win_size = rn.win_size;
    } in
    let m1 = record m {
      next = m.next + 1 + 1 + 1;
      glb_csrs = update m.glb_csrs (m.next + 1) (some unset_csr);
      rdma_devs = update m.rdma_devs m.next (some d);
      rn_devs = update m.rn_devs p (some (record rn { rdma_dev = m.next }));
    } in
    let m2 = record m1 { glb_csrs = update m1.glb_csrs (m.next + 1) none } in
    let real0 : (m.next == 0) ≡ false = ground arith in
    let real1 : (m.next + 1 == 0) ≡ false = ground arith in
    let real2 : (m.next + 1 + 1 == 0) ≡ false = ground arith in
    let at_d : m1.rdma_devs m.next ≡ some d = rw (==-refl m.next) refl in
    let at_csr : m1.glb_csrs (m.next + 1) ≡ some unset_csr = rw (==-refl (m.next + 1)) refl in
    let loop =
      destroy_qps-null env fuel rn.num_qp 0 rn.num_qp m.next d m2 at_d refl (omega arith) in
    let some_qps : (ltb 0 rn.num_qp && false) ≡ false = elim (Bool-cases (ltb 0 rn.num_qp)) [
      | inl e ↦ rw e refl
      | inr e ↦ rw e refl
    ] in
    (
      m1,
      record m2 { bus = write (rn.axil_ctl + rn_rdma_gcsr_xrnicconf) 0 ∷ m.bus },
      rw (at_p, deref)
          (rw (enough m.next) (
            rw real0 (
              rw (enough (m.next + 1))
                (rw real1 (rw (enough (m.next + 1 + 1)) (rw real2 (rw some_qps refl))))))),
      rw real0 (rw (at_d, deref) (rw real1 (rw (at_csr, deref) (rw loop refl)))),
      at_csr,
      rw (==-refl (m.next + 1)) refl,
      refl,
    )
