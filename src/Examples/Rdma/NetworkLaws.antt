-- ===== src/Examples/Rdma/NetworkLaws.antt =====
-- examples/network_systolic_mm/network_systolic_mm.c: the product on the card and the verdict on it.
use reco_nic.Prelude.{
  ℕ, suc, ◌+◌, ◌%◌, ◌^◌, ◌<◌, ◌≡◌, ◌≢◌, ◌↔◌, refl, ap, List, some, ◌⊎◌, take, arith, u32,
}
use reco_nic.Machine.{Machine, Env, Access, RdmaDev, RdmaBuff, ret, deref}
use reco_nic.Machine.Poll.{nth_read, after_reads}
use reco_nic.Memory.Content.{load}
use reco_nic.Memory.Device.{IsRegular, replay}
use reco_nic.Memory.Read.{read_to_buffer-load}
use reco_nic.Registers.{rn_clr_ctl_cmd, rn_clr_ker_sts, rn_clr_job_completed_not_read}
use reco_nic.Control.{CtlCmd, gen_ctl_cmd, issue_ctl_cmd}
use reco_nic.Control.Laws.{
  IsCommand, command_words, written_at, decode, decode-command_words, wait_compute-first,
}
use reco_nic.Examples.Systolic.Run.{Verdict, passed, failed}
use reco_nic.Examples.Systolic.Verdict.{HoldsProduct, check_result-verdict}
use reco_nic.Examples.Rdma.Setup.{Options, Shell, Objects}
use reco_nic.Examples.Rdma.Network.{multiply}

-- The kernel's command: the low words of the addresses of the three matrices, and their shapes.
abbrev pub product_command : (a b c : RdmaBuff) → CtlCmd
product_command a b c = record {
  ctl_cmd_size = 6;
  a_baseaddr = u32 a.dma_addr;
  b_baseaddr = u32 b.dma_addr;
  c_baseaddr = u32 c.dma_addr;
  a_row = 16;
  a_col = 16;
  b_col = 16;
  work_id = 0xdd;
}

module _ (env : Env) (initial : ℕ → ℕ) (regular : IsRegular env initial) (shell : Shell)
    (o : Options) (b : Objects) (m : Machine) (d : RdmaDev) (buf_a buf_b buf_c : RdmaBuff)
    (at_dev : m.rdma_devs b.rdma_dev ≡ some d) where
  -- The registers' trace when the kernel has its command, and when it has been seen to be done.
  abbrev pub ordered : List Access
  ordered = command_words (d.axil_ctl + rn_clr_ctl_cmd) (product_command buf_a buf_b buf_c) m.bus

  abbrev pub waited : (k : ℕ) → List Access
  waited k = after_reads env.hardware (d.axil_ctl + rn_clr_job_completed_not_read) (suc k) ordered

  -- What the third buffer holds on the card.
  abbrev pub answer : List ℕ
  answer = load (replay initial m.file).content (buf_c.dma_addr % 2 ^ 37) 1024

  -- The client of the network program on a regular device, with a kernel that reports to be done
  -- after `k` polls. The kernel has been given a command that names the three buffers by the low
  -- words of their addresses. The program passes its test exactly when the third buffer then holds
  -- the product of the two matrices, as 32-bit ints, and the kernel's status is the number of this
  -- work; otherwise the test fails.
  pub multiply-verdict :
      (k fuel : ℕ)
      → k < fuel
      → ((i : ℕ)
          → i < k
          → nth_read env.hardware (d.axil_ctl + rn_clr_job_completed_not_read) i ordered ≡ 0)
      → nth_read env.hardware (d.axil_ctl + rn_clr_job_completed_not_read) k ordered ≢ 0
      → (decode (take 6 (written_at (d.axil_ctl + rn_clr_ctl_cmd) ordered))
          ≡ some (product_command buf_a buf_b buf_c))
        × (v : Verdict) × (m' : Machine) × (multiply env shell o b fuel buf_a buf_b buf_c m
            ≡ ret (some v) m')
        × ((v ≡ passed) ⊎ (v ≡ failed))
        × ((v ≡ passed) ↔ (
            HoldsProduct answer
            × (u32 (env.hardware (waited k) (d.axil_ctl + rn_clr_ker_sts)) ≡ 0xdd)))
  unfolding multiply gen_ctl_cmd issue_ctl_cmd
  multiply-verdict k fuel enough busy done =
      let m1 = record m { bus = ordered } in
      let m2 = record m { bus = waited k } in
      let (m3, got, content, frame) =
        read_to_buffer-load env initial 1024 buf_c.dma_addr m2 regular in
      let wait =
        wait_compute-first env fuel k d.axil_ctl rn_clr_job_completed_not_read m1 busy done
          enough in
      let (v, m', run, which, exactly) = check_result-verdict env d.axil_ctl answer m3 in
      let same_bus : m3.bus ≡ waited k = ap (λ (x : Machine). x.bus) frame in
      let fits : IsCommand (product_command buf_a buf_b buf_c) = record {
        ctl_cmd_size = omega arith;
        a_baseaddr = omega arith;
        b_baseaddr = omega arith;
        c_baseaddr = omega arith;
        a_row = omega arith;
        a_col = omega arith;
        b_col = omega arith;
        work_id = omega arith;
      } in
      (
        decode-command_words (d.axil_ctl + rn_clr_ctl_cmd) (product_command buf_a buf_b buf_c) m.bus
            fits,
        v,
        m',
        rw (at_dev, deref) (rw wait (rw got (rw run refl))),
        which,
        rw same_bus at exactly,
      )
