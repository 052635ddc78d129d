-- ===== src/Examples/Rdma/SendRecv.antt =====
-- examples/rdma_test/send_recv.c: the server sends its payload to the receive queue of the client.
use reco_nic.Prelude.{
  ℕ, zero, suc, ◌/◌, List, none, some, Bool, true, false, ◌==◌, if◌then◌else◌, slt32,
}
use reco_nic.Machine.{Env, Cmd, Ptr, RdmaBuff, ret, out_of_fuel, pure, deref, malloc, ◌>>=◌, ◌>>◌}
use reco_nic.Registers.{rnic_op_send}
use reco_nic.Reconic.Buffer.{allocate_rdma_buffer}
use reco_nic.Rdma.Qp.{qp_pointer}
use reco_nic.Rdma.Wqe.{create_a_wqe}
use reco_nic.Rdma.Send.{rdma_post_send}
use reco_nic.Rdma.Receive.{rdma_post_receive, rdma_release_rq_consumed}
use reco_nic.Rdma.Dump.{dump_registers}
use reco_nic.Examples.Rdma.Setup.{
  Options, Shell, Status, Objects, invalid, open_device, open_queue_pair, make_golden, wait_key,
  clean_up,
}
use reco_nic.Examples.Rdma.Steps.{request, fill_buffer, fetch_buffer, data_match}

module _ (env : Env) where
  -- The pointer `rdma_dev->qps_ptr[qpid]`.
  abbrev pub qp_of : (rdma_dev : Ptr) → Cmd Ptr
  qp_of rdma_dev = do d ← deref (λ m. m.rdma_devs) rdma_dev; qp_pointer d 2

  -- The loop over the elements that have come. `fuel` bounds the rounds, and `poll_fuel` each wait.
  unfoldable pub release_loop : (fuel poll_fuel : ℕ) → (rdma_dev : Ptr) → Cmd (Unit {0})
  release_loop zero poll_fuel rdma_dev = λ m. out_of_fuel m
  release_loop (suc fuel) poll_fuel rdma_dev = do
    qp ← qp_of rdma_dev
    more ← rdma_release_rq_consumed env rdma_dev qp
    let again = release_loop fuel poll_fuel rdma_dev
    if more == 0
        then pure tt
        else do qp' ← qp_of rdma_dev; element ← rdma_post_receive env poll_fuel rdma_dev qp'; again

  -- The receive queue's buffer.
  abbrev pub rq_of : (rdma_dev : Ptr) → Cmd RdmaBuff
  rq_of rdma_dev = do qp ← qp_of rdma_dev; q ← deref (λ m. m.qps) qp; deref (λ m. m.buffs) q.rq

module _ (env : Env) (shell : Shell) (o : Options) (b : Objects) (sw_golden : List ℕ) where
  -- The client; `false` is `goto out`.
  unfoldable pub receive_client : (fuel : ℕ) → Cmd Bool
  receive_client fuel = do
    rq ← rq_of env b.rdma_dev
    recv_tmp ← malloc env
    qp ← qp_of env b.rdma_dev
    element ← rdma_post_receive env fuel b.rdma_dev qp
    release_loop env fuel fuel b.rdma_dev
    rq' ← rq_of env b.rdma_dev
    got ← fetch_buffer env o.payload_size rq'.buffer rq.dma_addr
    λ m. elim got [
      | none ↦ ret false m
      | some bytes ↦
          if data_match (o.payload_size / 4) 0 bytes sw_golden
          then (do dump_registers env b.rdma_dev 0 2; pure true) m
          else ret false m
    ]

  -- The server; `false` is `goto out`.
  unfoldable pub send_server : Cmd Bool
  send_server = do
    payload_tmp ← allocate_rdma_buffer env b.rn_dev o.payload_size o.qp_location
    buf ← deref (λ m. m.buffs) payload_tmp
    filled ← fill_buffer env sw_golden o.payload_size o.payload_size buf
    if filled
        then (do
          create_a_wqe env b.rdma_dev 2 0 (request buf.dma_addr o.payload_size rnic_op_send 0)
          ret_val ← rdma_post_send env b.rdma_dev 2
          if slt32 ret_val 0
              then pure false
              else do wait_key shell.keys; dump_registers env b.rdma_dev 1 2; pure true)
        else pure false

-- `main` behind the options. `fuel` bounds the waits.
unfoldable pub send_recv_main : Env → (fuel : ℕ) → Shell → Options → Cmd Status
unfolding receive_client send_server
send_recv_main env fuel shell o = do
  b ← open_device env shell o
  if shell.open_device_fails then pure invalid else do
    open_queue_pair env shell o b
    sw_golden ← make_golden env shell o.payload_size
    let serve = (do went ← send_server env shell o b sw_golden; clean_up env fuel b)
    if o.client
        then (do went ← receive_client env shell o b sw_golden fuel; clean_up env fuel b)
        else if o.server
        then serve
        else clean_up env fuel b
