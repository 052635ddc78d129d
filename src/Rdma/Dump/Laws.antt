-- ===== src/Rdma/Dump/Laws.antt =====
-- Printing registers changes none of them.
use reco_nic.Prelude.{
  ℕ, u32, ◌+◌, List, [], ◌∷◌, map, ◌≡◌, refl, ap, ◌∙◌, some, ◌==◌, Bool-cases, inl, inr,
}
use reco_nic.Machine.{Machine, Env, RdmaDev, read, ret, deref}
use reco_nic.Machine.Trace.{last_write}
use reco_nic.Registers.{rn_rdma_qcsr_sqpi_i}
use reco_nic.Control.{read32_data}
use reco_nic.Rdma.Qp.{get_rdma_per_q_config_addr}
use reco_nic.Rdma.Dump.{print_all, dump_registers, global_registers, q_registers}

-- A run that only reads registers.
abbrev pub OnlyReads : Machine → Machine → Type 0
OnlyReads m m' =
    ((a : ℕ) → last_write m'.bus a ≡ last_write m.bus a) × (m' ≡ record m { bus = m'.bus })

pub trans_reads : (m m1 m2 : Machine) → OnlyReads m m1 → OnlyReads m1 m2 → OnlyReads m m2
trans_reads m m1 m2 f g =
    (λ a. g.0 a ∙ f.0 a, g.1 ∙ ap (λ (x : Machine). record x { bus = m2.bus }) f.1)

pub print_all-OnlyReads :
    (env : Env) (axil_ctl : ℕ) (registers : List ℕ) (m : Machine)
    → (m' : Machine) × (print_all env axil_ctl registers m ≡ ret tt m') × OnlyReads m m'
unfolding print_all read32_data
print_all-OnlyReads env axil_ctl [] m = (m, refl, ((λ a. refl), refl))
print_all-OnlyReads env axil_ctl (register ∷ rest) m =
    let m1 = record m {
      bus = read (axil_ctl + register) (u32 (env.hardware m.bus (axil_ctl + register))) ∷ m.bus;
    } in
    let (m2, run, same) = print_all-OnlyReads env axil_ctl rest m1 in
    (m2, run, trans_reads m m1 m2 ((λ a. refl), refl) same)

pub dump_registers-OnlyReads :
    (env : Env) (m : Machine) (rdma_dev is_sender qpid : ℕ) (d : RdmaDev)
    → m.rdma_devs rdma_dev ≡ some d
    → (m' : Machine) × (dump_registers env rdma_dev is_sender qpid m ≡ ret tt m') × OnlyReads m m'
unfolding dump_registers
dump_registers-OnlyReads env m rdma_dev is_sender qpid d at_dev =
    let (m1, run1, same1) = print_all-OnlyReads env d.axil_ctl global_registers m in
    let (m2, run2, same2) =
      print_all-OnlyReads env d.axil_ctl
        (map (λ (register : ℕ). get_rdma_per_q_config_addr register qpid) q_registers) m1 in
    let (m3, run3, same3) =
      print_all-OnlyReads env d.axil_ctl (get_rdma_per_q_config_addr rn_rdma_qcsr_sqpi_i qpid ∷ [])
        m2 in
    elim (Bool-cases (is_sender == 0)) [
      | inl receiver ↦ (
        m2,
        rw (at_dev, deref) (rw run1 (rw run2 (rw receiver refl))),
        trans_reads m m1 m2 same1 same2,
      )
      | inr sender ↦ (
        m3,
        rw (at_dev, deref) (rw run1 (rw run2 (rw sender run3))),
        trans_reads m m2 m3 (trans_reads m m1 m2 same1 same2) same3,
      )
    ]
