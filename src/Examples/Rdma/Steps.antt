-- ===== src/Examples/Rdma/Steps.antt =====
-- examples/rdma_test: the steps that its programs share behind the setup, as write.c has them.
use reco_nic.Prelude.{
  ℕ, zero, suc, ◌+◌, ◌/◌, List, Option, none, some, Bool, true, false, ◌==◌, if◌then◌else◌, length,
}
use reco_nic.Machine.{Env, Cmd, Ptr, RdmaBuff, ret, pure, deref, modify, ◌>>=◌, ◌>>◌}
use reco_nic.Memory.{write_from_buffer, read_to_buffer}
use reco_nic.Memory.Content.{store, load}
use reco_nic.Reconic.Address.{is_device_address}
use reco_nic.Rdma.Wqe.{Request, create_a_wqe}
use reco_nic.Examples.Systolic.Run.{test_data, int_bytes, int_at}
use reco_nic.Examples.Rdma.Setup.{r_key}

-- The request of the client, which sends no small payload.
abbrev pub request : (laddr length opcode remote_offset : ℕ) → Request
request laddr length opcode remote_offset = record {
  wrid = 0;
  laddr = laddr;
  length = length;
  opcode = opcode;
  remote_offset = remote_offset;
  r_key = r_key;
  send_small_payload0 = 0;
  send_small_payload1 = 0;
  send_small_payload2 = 0;
  send_small_payload3 = 0;
  immdt_data = 0;
}

module _ (env : Env) where
  -- The pointer `rn_dev->rdma_dev`.
  abbrev pub rdma_dev_of : Ptr → Cmd Ptr
  rdma_dev_of rn_dev = do rn ← deref (λ m. m.rn_devs) rn_dev; pure rn.rdma_dev

  -- The payload goes to the buffer: on the card by a transfer, in the host's memory word by word.
  -- `false` is a failed transfer.
  unfoldable pub fill_buffer : (sw_golden : List ℕ) (size host_size : ℕ) → RdmaBuff → Cmd Bool
  fill_buffer sw_golden size host_size b =
      if is_device_address b.dma_addr
      then (do
        rc ← write_from_buffer env sw_golden size b.dma_addr
        λ m. elim rc [ none ↦ ret false m | some n ↦ ret true m ])
      else (do
        modify (λ m. record m {
          memory = store m.memory b.buffer (int_bytes (test_data (host_size / 4) 0));
        })
        pure true)

  -- What a buffer holds, read from the card or where it is in the host's memory; `none` is a failed
  -- transfer.
  unfoldable pub fetch_buffer : (size : ℕ) (buffer dma_addr : ℕ) → Cmd (Option (List ℕ))
  fetch_buffer size buffer dma_addr =
      if is_device_address dma_addr
      then (do
        got ← read_to_buffer env size dma_addr
        λ m. elim got.0 [ none ↦ ret none m | some n ↦ ret (some got.1) m ])
      else λ m. ret (some (load m.memory buffer size)) m

  -- Elements for the same request in the slots from `wqe_idx` on.
  unfoldable pub create_batch : (rounds wqe_idx : ℕ) → (rdma_dev : Ptr) → Request → Cmd (Unit {0})
  create_batch zero wqe_idx rdma_dev r = pure tt
  create_batch (suc n) wqe_idx rdma_dev r = do
    create_a_wqe env rdma_dev 2 wqe_idx r
    create_batch n (wqe_idx + 1) rdma_dev r

-- Whether the words from the `i`-th on are those of the payload.
unfoldable pub data_match : (rounds i : ℕ) (recv_tmp sw_golden : List ℕ) → Bool
data_match zero i recv_tmp sw_golden = true
data_match (suc r) i recv_tmp sw_golden =
    let rest = data_match r (i + 1) recv_tmp sw_golden in
    if int_at recv_tmp i == int_at sw_golden i then rest else false
