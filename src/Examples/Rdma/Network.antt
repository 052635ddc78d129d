-- ===== src/Examples/Rdma/Network.antt =====
-- examples/network_systolic_mm/network_systolic_mm.c: the client reads two matrices from the server,
-- and lets the card multiply them.
use reco_nic.Prelude.{
  ℕ, ◌+◌, [], ◌∷◌, Option, none, some, Bool, true, false, ◌==◌, if◌then◌else◌, u16, u32, u64,
  bit_and,
}
use reco_nic.Machine.{
  Env, Cmd, Ptr, null, RdmaBuff, ret, pure, deref, malloc, not_null, modify, ◌>>=◌, ◌>>◌,
}
use reco_nic.Registers.{rnic_op_read, rn_clr_ctl_cmd, rn_clr_job_completed_not_read}
use reco_nic.Control.{gen_ctl_cmd, issue_ctl_cmd, wait_compute}
use reco_nic.Memory.{write_from_buffer, read_to_buffer, seek_to, device_memory_address_mask}
use reco_nic.Memory.Content.{store}
use reco_nic.Reconic.Address.{is_device_address}
use reco_nic.Reconic.Buffer.{allocate_rdma_buffer, device_mem}
use reco_nic.Rdma.Pd.{rdma_register_memory_region}
use reco_nic.Rdma.Wqe.{create_a_wqe}
use reco_nic.Rdma.Send.{rdma_post_send}
use reco_nic.Rdma.Dump.{dump_registers}
use reco_nic.Examples.Systolic.Run.{Verdict, check_result, int_bytes, matrix, work_id}
use reco_nic.Examples.Rdma.Setup.{
  Options, Shell, Status, Objects, no_peer, invalid, r_key, open_device, open_queue_pair, htonll,
  wait_key, clean_up,
}
use reco_nic.Examples.Rdma.Steps.{request, rdma_dev_of}

abbrev pub transfer_size : ℕ
transfer_size = 1024

module _ (env : Env) (shell : Shell) (o : Options) (b : Objects) where
  -- One matrix: an element in slot `wqe_idx`, and a post.
  unfoldable pub fetch_matrix : (wqe_idx : ℕ) → RdmaBuff → (remote_offset : ℕ) → Cmd (Unit {0})
  fetch_matrix wqe_idx buf remote_offset = do
    dev ← rdma_dev_of env b.rn_dev
    create_a_wqe env dev 2 wqe_idx (request buf.dma_addr transfer_size rnic_op_read remote_offset)
    ret_val ← rdma_post_send env dev 2
    dump_registers env dev 1 2

  -- The product on the card, and the verdict on it; `none` is `goto out`. `fuel` bounds the wait.
  unfoldable pub multiply : (fuel : ℕ) (a b c : RdmaBuff) → Cmd (Option Verdict)
  multiply fuel buf_a buf_b buf_c = do
    d ← deref (λ m. m.rdma_devs) b.rdma_dev
    issue_ctl_cmd d.axil_ctl rn_clr_ctl_cmd (
        gen_ctl_cmd (u32 buf_a.dma_addr) (u32 buf_b.dma_addr) (u32 buf_c.dma_addr) 6 16 16 16
          (u16 work_id))
    compute_done ← wait_compute env fuel d.axil_ctl rn_clr_job_completed_not_read
    got ← read_to_buffer env transfer_size buf_c.dma_addr
    λ m. elim got.0 [
      | none ↦ ret none m
      | some n ↦ (do v ← check_result env d.axil_ctl got.1; pure (some v)) m
    ]

  unfoldable pub network_client : (fuel read_a_offset read_b_offset : ℕ) → Cmd (Option Verdict)
  unfolding fetch_matrix multiply
  network_client fuel read_a_offset read_b_offset = do
    device_buffer_a ← allocate_rdma_buffer env b.rn_dev transfer_size device_mem
    device_buffer_b ← allocate_rdma_buffer env b.rn_dev transfer_size device_mem
    device_buffer_c ← allocate_rdma_buffer env b.rn_dev transfer_size device_mem
    buf_a ← deref (λ m. m.buffs) device_buffer_a
    buf_b ← deref (λ m. m.buffs) device_buffer_b
    buf_c ← deref (λ m. m.buffs) device_buffer_c
    fetch_matrix 0 buf_a read_a_offset
    fetch_matrix 1 buf_b read_b_offset
    multiply fuel buf_a buf_b buf_c

  -- A transfer of the matrix. Where `malloc` has given no memory for it, the device is asked to
  -- write from NULL, which it refuses.
  abbrev send_matrix : (matrix_data : Ptr) (dev_offset : ℕ) → Cmd (Option ℕ)
  send_matrix matrix_data dev_offset =
      if matrix_data == null
      then (do found ← seek_to env (bit_and dev_offset device_memory_address_mask); pure none)
      else write_from_buffer env (int_bytes matrix) transfer_size dev_offset

  -- The matrices go to the two halves of a region; `false` is a failed transfer.
  unfoldable pub fill_region : (matrix_data : Ptr) (buffer_a dma_a buffer_b dma_b : ℕ) → Cmd Bool
  fill_region matrix_data buffer_a dma_a buffer_b dma_b =
      if is_device_address dma_a
      then (do
        rc1 ← send_matrix matrix_data dma_a
        rc2 ← send_matrix matrix_data dma_b
        λ m. elim rc1 [
          | none ↦ ret false m
          | some n ↦ elim rc2 [ none ↦ ret false m | some n' ↦ ret true m ]
        ])
      else (do
        modify (λ m. record m {
          memory = store (store m.memory buffer_a (int_bytes matrix)) buffer_b (int_bytes matrix);
        })
        pure true)

  -- The server up to the two addresses that it sends; `none` is `goto out`.
  unfoldable pub network_server_offer : (matrix_data : Ptr) → Cmd (Option (ℕ × ℕ))
  unfolding fill_region
  network_server_offer matrix_data = do
    tmp_buffer ← allocate_rdma_buffer env b.rn_dev 4096 device_mem
    rdma_register_memory_region b.rdma_dev b.rdma_pd r_key tmp_buffer
    buf ← deref (λ m. m.buffs) tmp_buffer
    let buffer_b = u64 (buf.buffer + transfer_size)
    filled ←
        fill_region matrix_data buf.buffer buf.dma_addr buffer_b
          (u64 (buf.dma_addr + transfer_size))
    if filled then pure (some (htonll buf.buffer, htonll buffer_b)) else pure none

  unfoldable pub network_server : (matrix_data : Ptr) → Cmd Bool
  unfolding network_server_offer
  network_server matrix_data = do
    offer ← network_server_offer matrix_data
    λ m. elim offer [
      | none ↦ ret false m
      | some offsets ↦
          (do
            wait_key shell.keys
            dev ← rdma_dev_of env b.rn_dev
            dump_registers env dev 0 2
            pure true)
            m
    ]

-- `main` behind the options, the two buffer objects of its first lines included. `fuel` bounds the
-- waits.
unfoldable pub network_main : Env → (fuel : ℕ) → Shell → Options → Cmd Status
unfolding network_client network_server
network_main env fuel shell o = do
  mr_buffer_a ← malloc env
  mr_buffer_b ← malloc env
  b ← open_device env shell o
  if shell.open_device_fails then pure invalid else do
    open_queue_pair env shell o b
    matrix_data ← malloc env
    let serve = (do
      not_null mr_buffer_a
      not_null mr_buffer_b
      went ← network_server env shell o b matrix_data
      clean_up env fuel b)
    if o.client
        then (λ m. elim shell.received [
          | [] ↦ ret no_peer m
          | none ∷ rest ↦ ret no_peer m
          | some raw_a ∷ rest ↦ elim rest [
            | [] ↦ ret no_peer m
            | none ∷ rest' ↦ ret no_peer m
            | some raw_b ∷ rest' ↦
                (do
                  went ← network_client env shell o b fuel (htonll raw_a) (htonll raw_b)
                  clean_up env fuel b)
                  m
          ]
        ])
        else if o.server
        then serve
        else clean_up env fuel b
