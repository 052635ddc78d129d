-- ===== src/Examples/Systolic/Run.antt =====
-- examples/systolic_mm/systolic_mm.c, `main` behind the options.
use reco_nic.Prelude.{
  ℕ, zero, suc, ◌+◌, ◌*◌, ◌%◌, List, [], ◌∷◌, ◌++◌, Option, none, some, Bool, true, false, ◌&&◌,
  ◌==◌, if◌then◌else◌, get_or, replicate, u16,
}
use reco_nic.Machine.{Env, Cmd, ret, pure, ◌>>=◌, ◌>>◌}
use reco_nic.Registers.{rn_clr_ctl_cmd, rn_clr_ker_sts, rn_clr_job_completed_not_read}
use reco_nic.Control.{gen_ctl_cmd, issue_ctl_cmd, wait_compute, read32_data}
use reco_nic.Rdma.Wqe.{bytes32}
use reco_nic.Examples.Dma.{write_from_buffer, read_to_buffer}
use reco_nic.Examples.Systolic.{software_mmult}

-- What the system does for the program: whether the `i`-th call of `posix_memalign` or of `mlock`
-- fails, whether `open` of the PCIe resource or of the device does, and where `mmap` puts the
-- registers.
pub record Host : Type 0 where
  pub memalign_fails : ℕ → Bool
  pub mlock_fails : ℕ → Bool
  pub open_pcie_fails : Bool
  pub map_registers : Option ℕ
  pub open_device_fails : Bool

-- What `main` returns: 0, -1, -ENOMEM, -EINVAL, -EIO, or `rc` before anything has set it.
pub data Verdict : Type 0 where
  passed failed no_memory invalid io_error unset : Verdict

-- The three buffers; `none` if all are there and locked.
unfoldable pub allocate_buffers : Host → (left i : ℕ) → Option Verdict
allocate_buffers host zero i = none
allocate_buffers host (suc n) i =
    let rest = allocate_buffers host n (i + 1) in
    if host.memalign_fails i
    then some no_memory
    else if host.mlock_fails i
    then some unset
    else rest

-- The `i`-th int of the test data is `i % 10`.
unfoldable pub test_data : (rounds i : ℕ) → List ℕ
test_data zero i = []
test_data (suc r) i = i % 10 ∷ test_data r (i + 1)

-- An array of ints in memory, and the `i`-th int of it.
unfoldable pub int_bytes : List ℕ → List ℕ
int_bytes [] = []
int_bytes (x ∷ xs) = bytes32 x ++ int_bytes xs

abbrev pub int_at : List ℕ → ℕ → ℕ
int_at bs i =
    get_or bs (4 * i) 0
    + 256 * get_or bs (4 * i + 1) 0
    + 65536 * get_or bs (4 * i + 2) 0
    + 16777216 * get_or bs (4 * i + 3) 0

-- Whether the loop that compares goes through without a mismatch.
unfoldable pub all_match : (rounds i : ℕ) (hw sw : List ℕ) → Bool
all_match zero i hw sw = true
all_match (suc r) i hw sw =
    let rest = all_match r (i + 1) hw sw in if int_at hw i == get_or sw i 0 then rest else false

abbrev pub matrix_size : ℕ
matrix_size = 256

abbrev pub matrix : List ℕ
matrix = test_data matrix_size 0

abbrev pub work_id : ℕ
work_id = 0xdd

module _ (env : Env) where
  -- From the result in the host's memory on.
  unfoldable pub check_result : (axil_base : ℕ) (hw : List ℕ) → Cmd Verdict
  check_result axil_base hw = do
    let sw = software_mmult matrix matrix (replicate matrix_size 0)
    hw_work_id ← read32_data env axil_base rn_clr_ker_sts
    if all_match matrix_size 0 hw sw && work_id == hw_work_id then pure passed else pure failed

  -- From the command on: `fuel` bounds the wait for the kernel.
  unfoldable pub compute : (fuel axil_base : ℕ) → Cmd Verdict
  compute fuel axil_base = do
    issue_ctl_cmd axil_base rn_clr_ctl_cmd (gen_ctl_cmd 0 0x400 0x800 6 16 16 16 (u16 work_id))
    compute_done ← wait_compute env fuel axil_base rn_clr_job_completed_not_read
    got ← read_to_buffer env (matrix_size * 4) 0x800
    λ m. elim got.0 [ none ↦ ret io_error m | some rc ↦ check_result axil_base got.1 m ]

  -- The two matrices go to the card's memory, side by side from its start.
  unfoldable pub send_matrices : (fuel axil_base : ℕ) → Cmd Verdict
  send_matrices fuel axil_base = do
    rc ← write_from_buffer env (int_bytes matrix) (matrix_size * 4) 0
    λ m. elim rc [
      | none ↦ ret io_error m
      | some n ↦
          (do
            rc' ← write_from_buffer env (int_bytes matrix) (matrix_size * 4) 0x400
            λ m'. elim rc' [ none ↦ ret io_error m' | some n' ↦ compute fuel axil_base m' ])
            m
    ]

  unfoldable pub systolic_mm : Host → (fuel : ℕ) → Cmd Verdict
  systolic_mm host fuel = elim (allocate_buffers host 3 0) [
    | some failure ↦ pure failure
    | none ↦ if host.open_pcie_fails then pure invalid else elim host.map_registers [
      | none ↦ pure invalid
      | some axil_base ↦
          if host.open_device_fails then pure invalid else send_matrices fuel axil_base
    ]
  ]
