-- ===== src/Examples/Systolic/Verdict.antt =====
-- examples/systolic_mm/systolic_mm.c: when the test passes.
use reco_nic.Prelude.{
  ℕ, zero, suc, ◌+◌, ◌*◌, ◌/◌, ◌%◌, ◌^◌, ◌<◌, ◌≤◌, ◌≡◌, ◌≢◌, ◌↔◌, refl, sym, ap, ◌∙◌, List, [], ◌∷◌,
  none, some, Bool, true, false, ◌&&◌, ◌⊎◌, inl, inr, Bool-cases, arith, ==_iff, ◌==◌,
  if◌then◌else◌, get_or, length, u32,
}
use reco_nic.Machine.{Machine, Env, FileOp, Access, seek, file_read, file_write, read, ret}
use reco_nic.Machine.Poll.{nth_read, after_reads}
use reco_nic.Memory.{rw_max_size}
use reco_nic.Memory.Device.{transfer_limit}
use reco_nic.Registers.{rn_clr_ctl_cmd, rn_clr_ker_sts, rn_clr_job_completed_not_read}
use reco_nic.Control.{CtlCmd, gen_ctl_cmd, issue_ctl_cmd, read32_data}
use reco_nic.Control.Laws.{command_words, wait_compute-first}
use reco_nic.Examples.Dma.Small.{
  write_from_buffer-here, write_from_buffer-there, read_to_buffer-there,
}
use reco_nic.Examples.Systolic.{software_mmult}
use reco_nic.Examples.Systolic.Product.{dot}
use reco_nic.Examples.Systolic.Compare.{zeros, all_match-Same, Same-all_match, product_entry}
use reco_nic.Examples.Systolic.Run.{
  Host, Verdict, passed, failed, allocate_buffers, test_data, int_bytes, int_at, all_match, matrix,
  check_result, compute, send_matrices, systolic_mm,
}

length-int_bytes : (xs : List ℕ) → length (int_bytes xs) ≡ 4 * length xs
unfolding int_bytes
length-int_bytes [] = refl
length-int_bytes (x ∷ xs) = omega (arith, length-int_bytes xs)

length-test_data : (r i : ℕ) → length (test_data r i) ≡ r
unfolding test_data
length-test_data zero i = refl
length-test_data (suc r) i = ap suc (length-test_data r (i + 1))

-- The bytes hold the product of the test data with itself, as 32-bit ints.
abbrev pub HoldsProduct : List ℕ → Type 0
HoldsProduct hw =
    (i j : ℕ) → i < 16 → j < 16 → int_at hw (i * 16 + j) ≡ dot matrix matrix 16 i j 0 % 2 ^ 32

-- The test on the result, in terms of the product.
matches :
    (hw : List ℕ)
    → let sw = software_mmult matrix matrix (zeros 256) in
      (all_match 256 0 hw sw ≡ true) ↔ HoldsProduct hw
matches hw =
    let sw = software_mmult matrix matrix (zeros 256) in
    (
      λ h i j row col.
          all_match-Same hw sw 256 0 h (i * 16 + j) (omega arith) (omega arith)
          ∙ product_entry matrix matrix i j row col,
      λ h. Same-all_match hw sw 256 0 (λ p from to.
          ap (int_at hw) (omega arith)
          ∙ h (p / 16) (p % 16) (omega arith) (omega arith)
          ∙ sym (product_entry matrix matrix (p / 16) (p % 16) (omega arith) (omega arith))
          ∙ ap (λ (x : ℕ). get_or sw x 0) (omega arith)),
    )

abbrev matrix_bytes : List ℕ
matrix_bytes = int_bytes matrix

-- The command that the program gives.
abbrev command : CtlCmd
command = record {
  ctl_cmd_size = 6;
  a_baseaddr = 0;
  b_baseaddr = 0x400;
  c_baseaddr = 0x800;
  a_row = 16;
  a_col = 16;
  b_col = 16;
  work_id = 0xdd;
}

-- The calls on the device before the result is read.
abbrev pub sent : List FileOp → List FileOp
sent h =
    file_write matrix_bytes (some 1024)
    ∷ seek 0x400 (some 0x400)
    ∷ file_write matrix_bytes (some 1024)
    ∷ h

-- The registers' trace when the kernel has its command, and when it has been seen to be done.
abbrev pub commanded : (base : ℕ) → List Access → List Access
commanded base t = command_words (base + rn_clr_ctl_cmd) command t

abbrev pub finished : Env → (base k : ℕ) → List Access → List Access
finished env base k t =
    after_reads env.hardware (base + rn_clr_job_completed_not_read) (suc k) (commanded base t)

-- A system on which everything is there, and a device that does what it is told.
pub record Works (host : Host) (env : Env) (base : ℕ) : Type 0 where
  pub memalign : (i : ℕ) → host.memalign_fails i ≡ false
  pub mlock : (i : ℕ) → host.mlock_fails i ≡ false
  pub open_pcie : host.open_pcie_fails ≡ false
  pub map_registers : host.map_registers ≡ some base
  pub open_device : host.open_device_fails ≡ false
  pub seeks : (t : List FileOp) (o : ℕ) → env.seek t o ≡ some o
  pub writes :
      (t : List FileOp) (bs : List ℕ)
      → length bs ≤ transfer_limit
      → env.file_write t bs ≡ some (length bs)

-- The kernel reports that it is done after `k` polls, and its result is then `hw`.
pub record Answers (env : Env) (base k : ℕ) (hw : List ℕ) (m : Machine) : Type 0 where
  pub busy :
      (i : ℕ)
      → i < k
      → nth_read env.hardware (base + rn_clr_job_completed_not_read) i (commanded base m.bus) ≡ 0
  pub done :
      nth_read env.hardware (base + rn_clr_job_completed_not_read) k (commanded base m.bus) ≢ 0
  pub result : env.file_read (seek 0x800 (some 0x800) ∷ sent m.file) 1024 ≡ some hw
  pub whole : length hw ≡ 1024

verdict :
    (equal right : Bool)
    → let v = if equal && right then passed else failed in
      ((v ≡ passed) ⊎ (v ≡ failed)) × ((v ≡ passed) ↔ ((equal ≡ true) × (right ≡ true)))
verdict true true = (inl refl, ((λ e. (refl, refl)), (λ e. refl)))
verdict true false = (inr refl, ((λ e. cc), (λ h. cc h.1)))
verdict false right = (inr refl, ((λ e. cc), (λ h. cc h.0)))

-- The verdict on the bytes `hw`, in terms of the product and of the kernel's status.
pub check_result-verdict :
    (env : Env) (base : ℕ) (hw : List ℕ) (m : Machine)
    → (v : Verdict) × (m' : Machine) × (check_result env base hw m ≡ ret v m')
      × ((v ≡ passed) ⊎ (v ≡ failed))
      × ((v ≡ passed)
          ↔ (HoldsProduct hw × (u32 (env.hardware m.bus (base + rn_clr_ker_sts)) ≡ 0xdd)))
unfolding check_result read32_data
check_result-verdict env base hw m =
    let sw = software_mmult matrix matrix (zeros 256) in
    let status = u32 (env.hardware m.bus (base + rn_clr_ker_sts)) in
    let judged = verdict (all_match 256 0 hw sw) (0xdd == status) in
    let same = matches hw in
    let v : Verdict = if all_match 256 0 hw sw && (0xdd == status) then passed else failed in
    (
      v,
      record m { bus = read (base + rn_clr_ker_sts) status ∷ m.bus },
      elim (Bool-cases (all_match 256 0 hw sw && (0xdd == status))) [
        | inl e ↦ rw e refl
        | inr e ↦ rw e refl
      ],
      judged.0,
      (
        (λ e. (same.0 (judged.1.0 e).0, sym ((==_iff 0xdd status).0 (judged.1.0 e).1))),
        (λ h. judged.1.1 (same.1 h.0, (==_iff 0xdd status).1 (sym h.1))),
      ),
    )

module _ (host : Host) (env : Env) (base k : ℕ) (hw : List ℕ) (m : Machine)
    (works : Works host env base) (answers : Answers env base k hw m) where
  abbrev status : ℕ
  status = u32 (env.hardware (finished env base k m.bus) (base + rn_clr_ker_sts))

  length-matrix : length matrix_bytes ≡ 1024
  length-matrix = omega (arith, length-int_bytes matrix, length-test_data 256 0)

  abbrev with_result : Machine
  with_result = record m {
    bus = finished env base k m.bus;
    file = file_read 1024 (some hw) ∷ seek 0x800 (some 0x800) ∷ sent m.file;
  }

  compute-check :
      (fuel : ℕ)
      → k < fuel
      → compute env fuel base (record m { file = sent m.file })
        ≡ check_result env base hw with_result
  unfolding compute issue_ctl_cmd gen_ctl_cmd
  compute-check fuel enough =
      let m1 = record m { file = sent m.file; bus = commanded base m.bus } in
      rw
        (wait_compute-first env fuel k base rn_clr_job_completed_not_read m1 answers.busy
          answers.done enough)
        (rw
          (read_to_buffer-there env hw 1024 0x800 (record m1 { bus = finished env base k m.bus })
            (omega arith) answers.whole (λ e. omega arith) (works.seeks _ _) answers.result)
          refl)

  sends :
      (fuel : ℕ)
      → send_matrices env fuel base m ≡ compute env fuel base (record m { file = sent m.file })
  unfolding send_matrices
  sends fuel =
      let small : length matrix_bytes ≤ rw_max_size = omega (arith, length-matrix) in
      let fits : length matrix_bytes ≤ transfer_limit = omega (arith, length-matrix) in
      let h1 = file_write matrix_bytes (some 1024) ∷ m.file in
      let first = write_from_buffer-here env matrix_bytes m small (works.writes _ _ fits) in
      let second =
        write_from_buffer-there env matrix_bytes (record m { file = h1 }) small 0x400
          (λ e. omega arith) (works.seeks _ _) (works.writes _ _ fits) in
      rw (rw length-matrix at first) (rw (rw length-matrix at second) refl)

  allocated : allocate_buffers host 3 0 ≡ none
  unfolding allocate_buffers
  allocated =
      rw (works.memalign 0, works.mlock 0)
        (rw (works.memalign 1, works.mlock 1) (rw (works.memalign 2, works.mlock 2) refl))

  runs : (fuel : ℕ) → k < fuel → systolic_mm env host fuel m ≡ check_result env base hw with_result
  unfolding systolic_mm
  runs fuel enough =
      rw (allocated, systolic_mm)
        (rw works.open_pcie (
          rw (works.map_registers, systolic_mm)
            (rw works.open_device (sends fuel ∙ compute-check fuel enough))))

  -- On a system where everything is there, with a device that seeks and writes as it is told and a
  -- kernel that reports to be done after `k` polls, the program ends. It passes its test exactly
  -- when the bytes that it then reads hold the product of the two matrices, as 32-bit ints, and the
  -- kernel's status is the number of this work; otherwise it fails.
  pub systolic_mm-verdict :
      (fuel : ℕ)
      → k < fuel
      → (v : Verdict) × (m' : Machine) × (systolic_mm env host fuel m ≡ ret v m')
        × ((v ≡ passed) ⊎ (v ≡ failed))
        × ((v ≡ passed) ↔ (HoldsProduct hw × (status ≡ 0xdd)))
  systolic_mm-verdict fuel enough =
      let (v, m', run, which, exactly) = check_result-verdict env base hw with_result in
      (v, m', runs fuel enough ∙ run, which, exactly)
