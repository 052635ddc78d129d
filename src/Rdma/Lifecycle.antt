-- ===== src/Rdma/Lifecycle.antt =====
-- lib/rdma_api.c: the life of a queue pair as steps, each of them a call that has returned.
pub mod Laws
pub mod Create
use reco_nic.Prelude.{ℕ, ◌+◌, ◌*◌, ◌^◌, ◌≤◌, ◌<◌, ◌≡◌, ◌≢◌, Option, none, some, false}
use reco_nic.Machine.{Machine, Env, Ptr, RnDev, RdmaDev, RdmaQp, RdmaBuff, ret}
use reco_nic.Machine.Trace.{last_write}
use reco_nic.Reconic.Address.{is_device_address}
use reco_nic.Reconic.Address.Laws.{bar_window}
use reco_nic.Reconic.Buffer.{allocate_rdma_buffer, device_mem}
use reco_nic.Rdma.Dump.{dump_registers}
use reco_nic.Rdma.Pd.{rdma_register_memory_region}
use reco_nic.Rdma.Pd.Table.Refine.{Registration, IsReady}
use reco_nic.Rdma.Send.{poll_cq_cidb, rdma_post_send}
use reco_nic.Rdma.Send.Post.{HasQp, doorbell}
use reco_nic.Rdma.Wqe.{Request, create_a_wqe, wqe_size}
use reco_nic.Rdma.Wqe.Laws.{HasQueue}
use reco_nic.Rdma.Wqe.Element.{IsRequest}

-- One call on the device `p`, which has returned: a post on queue pair `qpid` or on another one, a
-- poll, a dump, an element in a queue of the host's memory, a buffer in the card's memory, or the
-- registration of a region.
pub data Step (env : Env) (p qpid : ℕ) (d : RdmaDev) (qp : Ptr) : Machine → Machine → Type 0 where
  post :
      (m m' : Machine) (v : ℕ) → rdma_post_send env p qpid m ≡ ret v m' → Step env p qpid d qp m m'
  other_post :
      (m m' : Machine) (v k : ℕ) (qp' : Ptr) (q' : RdmaQp)
      → HasQp m p k d qp' q'
      → k ≢ qpid
      → 1 ≤ k
      → k < 2 ^ 16
      → qp' ≢ qp
      → rdma_post_send env p k m ≡ ret v m'
      → Step env p qpid d qp m m'
  poll :
      (m m' : Machine) (v k sq_cidb : ℕ)
      → poll_cq_cidb env p k sq_cidb m ≡ ret v m'
      → Step env p qpid d qp m m'
  dump :
      (m m' : Machine) (is_sender k : ℕ)
      → dump_registers env p is_sender k m ≡ ret tt m'
      → Step env p qpid d qp m m'
  element :
      (m m' : Machine) (k wqe_idx : ℕ) (r : Request) (sq : RdmaBuff)
      → HasQueue m p k sq
      → IsRequest r
      → is_device_address sq.dma_addr ≡ false
      → 0 < sq.buffer
      → sq.buffer + wqe_idx * wqe_size < 2 ^ 64
      → create_a_wqe env p k wqe_idx r m ≡ ret tt m'
      → Step env p qpid d qp m m'
  buffer :
      (m m' : Machine) (rn_dev b : Ptr) (rn : RnDev) (s : ℕ)
      → ((n : ℕ) → env.malloc_fails n ≡ false)
      → m.next ≢ 0
      → m.rn_devs rn_dev ≡ some rn
      → rn.dev_buffer_offset ≤ 2 ^ 32
      → s < 2 ^ 32
      → allocate_rdma_buffer env rn_dev s device_mem m ≡ ret b m'
      → Step env p qpid d qp m m'
  region :
      (m m' : Machine) (r : Registration)
      → IsReady m r
      → m.win_sizes d.win_size ≡ some bar_window
      → d.axil_ctl ≢ 0
      → rdma_register_memory_region p r.pd_ptr r.r_key r.buf_ptr m ≡ ret tt m'
      → Step env p qpid d qp m m'

-- Any number of steps.
pub data Steps (env : Env) (p qpid : ℕ) (d : RdmaDev) (qp : Ptr) : Machine → Machine → Type 0 where
  begin : (m : Machine) → Steps env p qpid d qp m m
  then_step :
      (m m1 m2 : Machine)
      → Steps env p qpid d qp m m1
      → Step env p qpid d qp m1 m2
      → Steps env p qpid d qp m m2

-- The index that a register shows, which is 0 until it is written.
abbrev pub shown_index : Option ℕ → ℕ
shown_index none = 0
shown_index (some v) = v

-- Software and card agree on the queue pair: the object is in its place, the doorbell shows its
-- producer index, and no element is outstanding.
pub record InSync (p qpid : ℕ) (d : RdmaDev) (qp : Ptr) (m : Machine) : Type 0 where
  pub q : RdmaQp
  pub has : HasQp m p qpid d qp q
  pub shown : shown_index (last_write m.bus (doorbell d.axil_ctl qpid)) ≡ q.sq_pidb
  pub none_left : q.sq_cidb ≡ q.sq_pidb
  pub fits : q.sq_pidb < 2 ^ 32
