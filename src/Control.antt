-- ===== src/Control.antt =====
-- lib/control_api.c: access to the card's registers, and the commands for the compute kernel.
pub mod Laws
use reco_nic.Prelude.{ℕ, zero, suc, ◌+◌, ◌==◌, bit_and, bit_or, if◌then◌else◌, ◌∷◌, u32, shl32}
use reco_nic.Machine.{Machine, Env, Cmd, read, write, ret, out_of_fuel, modify, ◌>>=◌, ◌>>◌}

-- The registers are mapped at `pcie_axil_base`.
unfoldable pub write32_data : ℕ → ℕ → ℕ → Cmd (Unit {0})
write32_data pcie_axil_base offset value =
    modify (λ m. record m { bus = write (pcie_axil_base + offset) (u32 value) ∷ m.bus })

pub record CtlCmd : Type 0 where
  pub ctl_cmd_size : ℕ
  pub a_baseaddr : ℕ
  pub b_baseaddr : ℕ
  pub c_baseaddr : ℕ
  pub a_row : ℕ
  pub a_col : ℕ
  pub b_col : ℕ
  pub work_id : ℕ

-- The command that `gen_ctl_cmd` fills in. The parameters have the types of the fields.
unfoldable pub gen_ctl_cmd : ℕ → ℕ → ℕ → ℕ → ℕ → ℕ → ℕ → ℕ → CtlCmd
gen_ctl_cmd a_baseaddr b_baseaddr c_baseaddr ctl_cmd_size a_row a_col b_col work_id = record {
  ctl_cmd_size = ctl_cmd_size;
  a_baseaddr = a_baseaddr;
  b_baseaddr = b_baseaddr;
  c_baseaddr = c_baseaddr;
  a_row = a_row;
  a_col = a_col;
  b_col = b_col;
  work_id = work_id;
}

unfoldable pub issue_ctl_cmd : ℕ → ℕ → CtlCmd → Cmd (Unit {0})
unfolding write32_data
issue_ctl_cmd axil_base offset c = do
  write32_data axil_base offset c.ctl_cmd_size
  write32_data axil_base offset c.a_baseaddr
  write32_data axil_base offset c.b_baseaddr
  write32_data axil_base offset c.c_baseaddr
  write32_data axil_base offset
      (bit_or (bit_and (shl32 c.a_row 16) 0xffff0000) (bit_and c.a_col 0x0000ffff))
  write32_data axil_base offset
      (bit_or (bit_and (shl32 c.b_col 16) 0xffff0000) (bit_and c.work_id 0x0000ffff))

module _ (env : Env) where
  unfoldable pub read32_data : ℕ → ℕ → Cmd ℕ
  read32_data pcie_axil_base offset m =
      let value = u32 (env.hardware m.bus (pcie_axil_base + offset)) in
      ret value (record m { bus = read (pcie_axil_base + offset) value ∷ m.bus })

  -- The loop of `wait_compute`, entered with `compute_done` equal to 0. It has no bound of its own.
  unfoldable pub wait_compute : ℕ → ℕ → ℕ → Cmd ℕ
  unfolding read32_data
  wait_compute zero axil_base offset = λ m. out_of_fuel m
  wait_compute (suc fuel) axil_base offset = do
    compute_done ← read32_data axil_base offset
    let again = wait_compute fuel axil_base offset
    if compute_done == 0 then again else λ m. ret compute_done m
