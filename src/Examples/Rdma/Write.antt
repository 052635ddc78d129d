-- ===== src/Examples/Rdma/Write.antt =====
-- examples/rdma_test/write.c: the client writes its payload to the memory of the server.
use reco_nic.Prelude.{ℕ, ◌/◌, List, [], ◌∷◌, none, some, Bool, true, false, if◌then◌else◌}
use reco_nic.Machine.{Env, Cmd, Ptr, ret, pure, deref, malloc, ◌>>=◌, ◌>>◌}
use reco_nic.Registers.{rnic_op_write}
use reco_nic.Reconic.Buffer.{allocate_rdma_buffer, device_mem}
use reco_nic.Rdma.Pd.{rdma_register_memory_region}
use reco_nic.Rdma.Wqe.{create_a_wqe}
use reco_nic.Rdma.Send.{rdma_post_send}
use reco_nic.Rdma.Dump.{dump_registers}
use reco_nic.Examples.Rdma.Setup.{
  Options, Shell, Status, Objects, no_peer, invalid, r_key, open_device, open_queue_pair,
  make_golden, htonll, wait_key, clean_up,
}
use reco_nic.Examples.Rdma.Steps.{request, rdma_dev_of, fill_buffer, fetch_buffer, data_match}

module _ (env : Env) (shell : Shell) (o : Options) (b : Objects) (sw_golden : List ℕ) where
  -- The client from the address `write_offset_client` on that it has received; `false` is `goto out`.
  unfoldable pub write_client : (write_offset_client : ℕ) → Cmd Bool
  write_client write_offset_client = do
    device_buffer ← allocate_rdma_buffer env b.rn_dev o.payload_size device_mem
    buf ← deref (λ m. m.buffs) device_buffer
    filled ← fill_buffer env sw_golden o.payload_size o.payload_size buf
    if filled
        then (do
          dev ← rdma_dev_of env b.rn_dev
          create_a_wqe env dev 2 0
              (request buf.dma_addr o.payload_size rnic_op_write write_offset_client)
          ret_val ← rdma_post_send env dev 2
          dump_registers env b.rdma_dev 1 2
          pure true)
        else pure false

  -- The server up to the address that it sends, and the buffer.
  unfoldable pub write_server_offer : Cmd (Ptr × ℕ)
  write_server_offer = do
    recv_tmp ← malloc env
    dev ← rdma_dev_of env b.rn_dev
    dump_registers env dev 0 2
    tmp_buffer ← allocate_rdma_buffer env b.rn_dev o.payload_size device_mem
    rdma_register_memory_region b.rdma_dev b.rdma_pd r_key tmp_buffer
    buf ← deref (λ m. m.buffs) tmp_buffer
    pure (tmp_buffer, htonll buf.buffer)

  -- The server behind the key that the user types: whether the data has come, `goto out` otherwise.
  unfoldable pub write_server_check : Ptr → Cmd Bool
  write_server_check tmp_buffer = do
    buf ← deref (λ m. m.buffs) tmp_buffer
    recv_tmp ← fetch_buffer env o.payload_size buf.buffer buf.dma_addr
    λ m. elim recv_tmp [
      | none ↦ ret false m
      | some bytes ↦
          if data_match (o.payload_size / 4) 0 bytes sw_golden
          then (do dev ← rdma_dev_of env b.rn_dev; dump_registers env dev 0 2; pure true) m
          else ret false m
    ]

  unfoldable pub write_server : Cmd Bool
  unfolding write_server_offer write_server_check
  write_server = do
    offer ← write_server_offer
    dev ← rdma_dev_of env b.rn_dev
    dump_registers env dev 0 2
    wait_key shell.keys
    write_server_check offer.0

-- `main` behind the options. `fuel` bounds the waits in the destruction of the queue pairs.
unfoldable pub write_main : Env → (fuel : ℕ) → Shell → Options → Cmd Status
unfolding write_client write_server
write_main env fuel shell o = do
  b ← open_device env shell o
  if shell.open_device_fails then pure invalid else do
    open_queue_pair env shell o b
    sw_golden ← make_golden env shell o.payload_size
    let serve = (do went ← write_server env shell o b sw_golden; clean_up env fuel b)
    if o.client
        then (λ m. elim shell.received [
          | [] ↦ ret no_peer m
          | none ∷ rest ↦ ret no_peer m
          | some raw ∷ rest ↦
              (do went ← write_client env shell o b sw_golden (htonll raw); clean_up env fuel b) m
        ])
        else if o.server
        then serve
        else clean_up env fuel b
