-- ===== src/Rdma/Dump.antt =====
-- lib/rdma_api.c, `dump_registers`: every register that it prints is a read of the card.
pub mod Laws
use reco_nic.Prelude.{ℕ, ◌==◌, not, List, [], ◌∷◌, map}
use reco_nic.Machine.{Env, Cmd, Ptr, pure, when, deref, ◌>>=◌, ◌>>◌}
use reco_nic.Registers.{
  rn_rdma_gcsr_errbufwptr, rn_rdma_gcsr_ipkterrqwptr, rn_rdma_gcsr_insrrpktcnt,
  rn_rdma_gcsr_inampktcnt, rn_rdma_gcsr_outiopktcnt, rn_rdma_gcsr_outampktcnt,
  rn_rdma_gcsr_lstinpkt, rn_rdma_gcsr_lstoutpkt, rn_rdma_gcsr_ininvdupcnt, rn_rdma_gcsr_innckpktsts,
  rn_rdma_gcsr_outrnrpktsts, rn_rdma_gcsr_wqeprocsts, rn_rdma_gcsr_qpmsts,
  rn_rdma_gcsr_inalldrppktcnt, rn_rdma_gcsr_innakpktcnt, rn_rdma_gcsr_outnakpktcnt,
  rn_rdma_gcsr_resphndsts, rn_rdma_gcsr_retrycntsts, rn_rdma_gcsr_incnppktcnt,
  rn_rdma_gcsr_outcnppktcnt, rn_rdma_gcsr_outrdrsppktcnt, rn_rdma_gcsr_intsts,
  rn_rdma_gcsr_rqintsts1, rn_rdma_gcsr_rqintsts2, rn_rdma_gcsr_rqintsts3, rn_rdma_gcsr_rqintsts4,
  rn_rdma_gcsr_rqintsts5, rn_rdma_gcsr_rqintsts6, rn_rdma_gcsr_rqintsts7, rn_rdma_gcsr_rqintsts8,
  rn_rdma_gcsr_cqintsts1, rn_rdma_gcsr_cqintsts2, rn_rdma_gcsr_cqintsts3, rn_rdma_gcsr_cqintsts4,
  rn_rdma_gcsr_cqintsts5, rn_rdma_gcsr_cqintsts6, rn_rdma_gcsr_cqintsts7, rn_rdma_gcsr_cqintsts8,
  rn_rdma_qcsr_cqhead_i, rn_rdma_qcsr_statssn_i, rn_rdma_qcsr_statmsn_i, rn_rdma_qcsr_statqp_i,
  rn_rdma_qcsr_statcursqptr_i, rn_rdma_qcsr_statrespsn_i, rn_rdma_qcsr_statrqbufca_i,
  rn_rdma_qcsr_statwqe_i, rn_rdma_qcsr_statrqpidb_i, rn_rdma_qcsr_statrqbufcamsb_i,
  rn_rdma_qcsr_sqpi_i,
}
use reco_nic.Control.{read32_data}
use reco_nic.Rdma.Qp.{get_rdma_per_q_config_addr}

-- Reads registers for their values to be printed.
unfoldable pub print_all : Env → (axil_ctl : ℕ) → List ℕ → Cmd (Unit {0})
print_all env axil_ctl [] = pure tt
print_all env axil_ctl (register ∷ rest) = do
  value ← read32_data env axil_ctl register
  print_all env axil_ctl rest

abbrev pub global_registers : List ℕ
global_registers =
    rn_rdma_gcsr_errbufwptr ∷ rn_rdma_gcsr_ipkterrqwptr ∷ rn_rdma_gcsr_insrrpktcnt
    ∷ rn_rdma_gcsr_inampktcnt ∷ rn_rdma_gcsr_outiopktcnt ∷ rn_rdma_gcsr_outampktcnt
    ∷ rn_rdma_gcsr_lstinpkt ∷ rn_rdma_gcsr_lstoutpkt ∷ rn_rdma_gcsr_ininvdupcnt
    ∷ rn_rdma_gcsr_innckpktsts ∷ rn_rdma_gcsr_outrnrpktsts ∷ rn_rdma_gcsr_wqeprocsts
    ∷ rn_rdma_gcsr_qpmsts ∷ rn_rdma_gcsr_inalldrppktcnt ∷ rn_rdma_gcsr_innakpktcnt
    ∷ rn_rdma_gcsr_outnakpktcnt ∷ rn_rdma_gcsr_resphndsts ∷ rn_rdma_gcsr_retrycntsts
    ∷ rn_rdma_gcsr_incnppktcnt ∷ rn_rdma_gcsr_outcnppktcnt ∷ rn_rdma_gcsr_outrdrsppktcnt
    ∷ rn_rdma_gcsr_intsts ∷ rn_rdma_gcsr_rqintsts1 ∷ rn_rdma_gcsr_rqintsts2 ∷ rn_rdma_gcsr_rqintsts3
    ∷ rn_rdma_gcsr_rqintsts4 ∷ rn_rdma_gcsr_rqintsts5 ∷ rn_rdma_gcsr_rqintsts6
    ∷ rn_rdma_gcsr_rqintsts7 ∷ rn_rdma_gcsr_rqintsts8 ∷ rn_rdma_gcsr_cqintsts1
    ∷ rn_rdma_gcsr_cqintsts2 ∷ rn_rdma_gcsr_cqintsts3 ∷ rn_rdma_gcsr_cqintsts4
    ∷ rn_rdma_gcsr_cqintsts5 ∷ rn_rdma_gcsr_cqintsts6 ∷ rn_rdma_gcsr_cqintsts7
    ∷ rn_rdma_gcsr_cqintsts8 ∷ []

abbrev pub q_registers : List ℕ
q_registers =
    rn_rdma_qcsr_cqhead_i ∷ rn_rdma_qcsr_statssn_i ∷ rn_rdma_qcsr_statmsn_i ∷ rn_rdma_qcsr_statqp_i
    ∷ rn_rdma_qcsr_statcursqptr_i ∷ rn_rdma_qcsr_statrespsn_i ∷ rn_rdma_qcsr_statrqbufca_i
    ∷ rn_rdma_qcsr_statwqe_i ∷ rn_rdma_qcsr_statrqpidb_i ∷ rn_rdma_qcsr_statrqbufcamsb_i ∷ []

unfoldable pub dump_registers : Env → (rdma_dev : Ptr) → (is_sender qpid : ℕ) → Cmd (Unit {0})
dump_registers env rdma_dev is_sender qpid = do
  d ← deref (λ m. m.rdma_devs) rdma_dev
  print_all env d.axil_ctl global_registers
  print_all env d.axil_ctl
      (map (λ (register : ℕ). get_rdma_per_q_config_addr register qpid) q_registers)
  when (not (is_sender == 0))
      (print_all env d.axil_ctl (get_rdma_per_q_config_addr rn_rdma_qcsr_sqpi_i qpid ∷ []))
