-- ===== src/Examples/Rdma/Read.antt =====
-- examples/rdma_test/read.c: the client reads the payload from the memory of the server.
use reco_nic.Prelude.{ℕ, ◌/◌, List, [], ◌∷◌, Option, none, some, Bool, true, false, if◌then◌else◌}
use reco_nic.Machine.{Env, Cmd, Ptr, ret, pure, deref, malloc, ◌>>=◌, ◌>>◌}
use reco_nic.Registers.{rnic_op_read}
use reco_nic.Reconic.Buffer.{allocate_rdma_buffer, device_mem}
use reco_nic.Rdma.Pd.{rdma_register_memory_region}
use reco_nic.Rdma.Wqe.{create_a_wqe}
use reco_nic.Rdma.Send.{rdma_post_send}
use reco_nic.Rdma.Dump.{dump_registers}
use reco_nic.Examples.Rdma.Setup.{
  Options, Shell, Status, Objects, no_peer, invalid, r_key, open_device, open_queue_pair,
  make_golden, htonll, wait_key, clean_up,
}
use reco_nic.Examples.Rdma.Steps.{request, rdma_dev_of, fill_buffer, fetch_buffer, data_match}

module _ (env : Env) (shell : Shell) (o : Options) (b : Objects) (sw_golden : List ℕ) where
  -- The client up to the end of its request: the buffer that the data goes to.
  unfoldable pub read_client_post : (read_a_offset : ℕ) → Cmd Ptr
  read_client_post read_a_offset = do
    device_buffer ← allocate_rdma_buffer env b.rn_dev o.payload_size device_mem
    buf ← deref (λ m. m.buffs) device_buffer
    dev ← rdma_dev_of env b.rn_dev
    create_a_wqe env dev 2 0 (request buf.dma_addr o.payload_size rnic_op_read read_a_offset)
    ret_val ← rdma_post_send env dev 2
    dump_registers env dev 1 2
    pure device_buffer

  -- The check of what has come; `false` is `goto out`.
  unfoldable pub read_client_check : Ptr → Cmd Bool
  read_client_check device_buffer = do
    buf ← deref (λ m. m.buffs) device_buffer
    recv_tmp ← fetch_buffer env o.payload_size buf.buffer buf.dma_addr
    λ m. elim recv_tmp [
      | none ↦ ret false m
      | some bytes ↦
          if data_match (o.payload_size / 4) 0 bytes sw_golden
          then (do dump_registers env b.rdma_dev 1 2; pure true) m
          else ret false m
    ]

  unfoldable pub read_client : (read_a_offset : ℕ) → Cmd Bool
  unfolding read_client_post read_client_check
  read_client read_a_offset = do
    device_buffer ← read_client_post read_a_offset
    read_client_check device_buffer

  -- The server up to the address that it sends; `none` is `goto out`.
  unfoldable pub read_server_offer : Cmd (Option ℕ)
  read_server_offer = do
    tmp_buffer ← allocate_rdma_buffer env b.rn_dev o.payload_size device_mem
    rdma_register_memory_region b.rdma_dev b.rdma_pd r_key tmp_buffer
    buf ← deref (λ m. m.buffs) tmp_buffer
    filled ← fill_buffer env sw_golden o.payload_size o.payload_size buf
    if filled then pure (some (htonll buf.buffer)) else pure none

  unfoldable pub read_server : Cmd Bool
  unfolding read_server_offer
  read_server = do
    offer ← read_server_offer
    λ m. elim offer [
      | none ↦ ret false m
      | some read_offset ↦
          (do
            wait_key shell.keys
            dev ← rdma_dev_of env b.rn_dev
            dump_registers env dev 0 2
            pure true)
            m
    ]

-- `main` behind the options. `fuel` bounds the waits in the destruction of the queue pairs.
unfoldable pub read_main : Env → (fuel : ℕ) → Shell → Options → Cmd Status
unfolding read_client read_server
read_main env fuel shell o = do
  b ← open_device env shell o
  if shell.open_device_fails then pure invalid else do
    open_queue_pair env shell o b
    sw_golden ← make_golden env shell o.payload_size
    let serve = (do went ← read_server env shell o b sw_golden; clean_up env fuel b)
    if o.client
        then (do
          recv_tmp ← malloc env
          λ m. elim shell.received [
            | [] ↦ ret no_peer m
            | none ∷ rest ↦ ret no_peer m
            | some raw ∷ rest ↦
                (do went ← read_client env shell o b sw_golden (htonll raw); clean_up env fuel b) m
          ])
        else if o.server
        then serve
        else clean_up env fuel b
