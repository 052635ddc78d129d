-- ===== src/Examples/Rdma/Batches.antt =====
-- examples/rdma_test/write_batch.c and read_batch.c: a batch of elements for one doorbell.
use reco_nic.Prelude.{ℕ, ◌*◌, List, [], ◌∷◌, none, some, Bool, true, false, if◌then◌else◌, u32}
use reco_nic.Machine.{Env, Cmd, ret, pure, deref, ◌>>=◌, ◌>>◌}
use reco_nic.Registers.{rnic_op_write, rnic_op_read}
use reco_nic.Reconic.Buffer.{allocate_rdma_buffer, device_mem}
use reco_nic.Rdma.Pd.{rdma_register_memory_region}
use reco_nic.Rdma.Send.{rdma_post_batch_send}
use reco_nic.Rdma.Dump.{dump_registers}
use reco_nic.Examples.Rdma.Setup.{
  Options, Shell, Status, Objects, no_peer, invalid, r_key, open_device, open_queue_pair,
  make_golden, htonll, wait_key, clean_up,
}
use reco_nic.Examples.Rdma.Steps.{request, rdma_dev_of, fill_buffer, create_batch}

-- The product of two values of type `uint32_t`.
unfoldable pub total_payload_size : Options → ℕ
total_payload_size o = u32 (o.wqe_count * o.payload_size)

module _ (env : Env) (shell : Shell) (o : Options) (b : Objects) (sw_golden : List ℕ) where
  abbrev total : ℕ
  total = total_payload_size o

  -- The client of write_batch.c up to its last element; `false` is `goto out`. The index of the loop
  -- is an `int` that is compared with a `uint32_t`.
  unfoldable pub write_batch_create : (write_offset_client : ℕ) → Cmd Bool
  unfolding total_payload_size
  write_batch_create write_offset_client = do
    device_buffer ← allocate_rdma_buffer env b.rn_dev total device_mem
    buf ← deref (λ m. m.buffs) device_buffer
    filled ← fill_buffer env sw_golden total o.payload_size buf
    if filled
        then (do
          dev ← rdma_dev_of env b.rn_dev
          create_batch env o.wqe_count 0 dev
              (request buf.dma_addr o.payload_size rnic_op_write write_offset_client)
          pure true)
        else pure false

  -- `fuel` bounds the wait for the batch.
  unfoldable pub write_batch_client : (fuel write_offset_client : ℕ) → Cmd Bool
  unfolding write_batch_create
  write_batch_client fuel write_offset_client = do
    created ← write_batch_create write_offset_client
    if created
        then (do
          dev ← rdma_dev_of env b.rn_dev
          ret_val ← rdma_post_batch_send env fuel dev 2 o.wqe_count
          dump_registers env b.rdma_dev 1 2
          pure true)
        else pure false

  unfoldable pub write_batch_server : Cmd Bool
  unfolding total_payload_size
  write_batch_server = do
    dev ← rdma_dev_of env b.rn_dev
    dump_registers env dev 0 2
    tmp_buffer ← allocate_rdma_buffer env b.rn_dev total device_mem
    rdma_register_memory_region b.rdma_dev b.rdma_pd r_key tmp_buffer
    dump_registers env dev 0 2
    wait_key shell.keys
    dump_registers env dev 0 2
    pure true

  -- The client of read_batch.c up to its last element.
  unfoldable pub read_batch_create : (read_a_offset : ℕ) → Cmd (Unit {0})
  unfolding total_payload_size
  read_batch_create read_a_offset = do
    device_buffer ← allocate_rdma_buffer env b.rn_dev total device_mem
    buf ← deref (λ m. m.buffs) device_buffer
    dev ← rdma_dev_of env b.rn_dev
    create_batch env o.wqe_count 0 dev
        (request buf.dma_addr o.payload_size rnic_op_read read_a_offset)

  unfoldable pub read_batch_client : (fuel read_a_offset : ℕ) → Cmd Bool
  unfolding read_batch_create
  read_batch_client fuel read_a_offset = do
    read_batch_create read_a_offset
    dev ← rdma_dev_of env b.rn_dev
    ret_val ← rdma_post_batch_send env fuel dev 2 o.wqe_count
    dump_registers env b.rdma_dev 1 2
    pure true

  unfoldable pub read_batch_server : Cmd Bool
  unfolding total_payload_size
  read_batch_server = do
    tmp_buffer ← allocate_rdma_buffer env b.rn_dev total device_mem
    rdma_register_memory_region b.rdma_dev b.rdma_pd r_key tmp_buffer
    buf ← deref (λ m. m.buffs) tmp_buffer
    filled ← fill_buffer env sw_golden total total buf
    if filled
        then (do
          wait_key shell.keys
          dev ← rdma_dev_of env b.rn_dev
          dump_registers env dev 0 2
          pure true)
        else pure false

-- `main` behind the options, for one of the two programs: its client and its server. `fuel` bounds
-- the waits for the batch and in the destruction of the queue pairs.
unfoldable pub batch_main :
    Env
    → (fuel : ℕ) → Shell
    → (client : Env → Shell → Options → Objects → List ℕ → (fuel remote_offset : ℕ) → Cmd Bool)
    → (server : Env → Shell → Options → Objects → List ℕ → Cmd Bool) → Options
    → Cmd Status
unfolding total_payload_size
batch_main env fuel shell client server o = do
  b ← open_device env shell o
  if shell.open_device_fails then pure invalid else do
    open_queue_pair env shell o b
    sw_golden ← make_golden env shell (total_payload_size o)
    let serve = (do went ← server env shell o b sw_golden; clean_up env fuel b)
    if o.client
        then (λ m. elim shell.received [
          | [] ↦ ret no_peer m
          | none ∷ rest ↦ ret no_peer m
          | some raw ∷ rest ↦
              (do went ← client env shell o b sw_golden fuel (htonll raw); clean_up env fuel b) m
        ])
        else if o.server
        then serve
        else clean_up env fuel b

unfoldable pub write_batch_main : Env → (fuel : ℕ) → Shell → Options → Cmd Status
unfolding batch_main write_batch_client write_batch_server
write_batch_main env fuel shell o =
    batch_main env fuel shell write_batch_client write_batch_server o

unfoldable pub read_batch_main : Env → (fuel : ℕ) → Shell → Options → Cmd Status
unfolding batch_main read_batch_client read_batch_server
read_batch_main env fuel shell o = batch_main env fuel shell read_batch_client read_batch_server o
