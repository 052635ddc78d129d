-- ===== src/Registers/Qcsr.antt =====
-- The per-queue registers (lib/reconic_reg.h); one block of 256 bytes for each queue pair.
use reco_nic.Prelude.{ℕ, ◌+◌}
use reco_nic.Registers.Base.{rn_rdma_base_address}

abbrev pub rn_rdma_qcsr_qpconf_i : ℕ
rn_rdma_qcsr_qpconf_i = rn_rdma_base_address + 0x00020200

abbrev pub rn_rdma_qcsr_qpadvconf_i : ℕ
rn_rdma_qcsr_qpadvconf_i = rn_rdma_base_address + 0x00020204

abbrev pub rn_rdma_qcsr_rqba_i : ℕ
rn_rdma_qcsr_rqba_i = rn_rdma_base_address + 0x00020208

abbrev pub rn_rdma_qcsr_rqbamsb_i : ℕ
rn_rdma_qcsr_rqbamsb_i = rn_rdma_base_address + 0x000202C0

abbrev pub rn_rdma_qcsr_sqba_i : ℕ
rn_rdma_qcsr_sqba_i = rn_rdma_base_address + 0x00020210

abbrev pub rn_rdma_qcsr_sqbamsb_i : ℕ
rn_rdma_qcsr_sqbamsb_i = rn_rdma_base_address + 0x000202C8

abbrev pub rn_rdma_qcsr_cqba_i : ℕ
rn_rdma_qcsr_cqba_i = rn_rdma_base_address + 0x00020218

abbrev pub rn_rdma_qcsr_cqbamsb_i : ℕ
rn_rdma_qcsr_cqbamsb_i = rn_rdma_base_address + 0x000202D0

abbrev pub rn_rdma_qcsr_rqwptrdbadd_i : ℕ
rn_rdma_qcsr_rqwptrdbadd_i = rn_rdma_base_address + 0x00020220

abbrev pub rn_rdma_qcsr_rqwptrdbaddmsb_i : ℕ
rn_rdma_qcsr_rqwptrdbaddmsb_i = rn_rdma_base_address + 0x00020224

abbrev pub rn_rdma_qcsr_cqdbadd_i : ℕ
rn_rdma_qcsr_cqdbadd_i = rn_rdma_base_address + 0x00020228

abbrev pub rn_rdma_qcsr_cqdbaddmsb_i : ℕ
rn_rdma_qcsr_cqdbaddmsb_i = rn_rdma_base_address + 0x0002022C

abbrev pub rn_rdma_qcsr_cqhead_i : ℕ
rn_rdma_qcsr_cqhead_i = rn_rdma_base_address + 0x00020230

abbrev pub rn_rdma_qcsr_rqci_i : ℕ
rn_rdma_qcsr_rqci_i = rn_rdma_base_address + 0x00020234

abbrev pub rn_rdma_qcsr_sqpi_i : ℕ
rn_rdma_qcsr_sqpi_i = rn_rdma_base_address + 0x00020238

abbrev pub rn_rdma_qcsr_qdepth_i : ℕ
rn_rdma_qcsr_qdepth_i = rn_rdma_base_address + 0x0002023C

abbrev pub rn_rdma_qcsr_sqpsn_i : ℕ
rn_rdma_qcsr_sqpsn_i = rn_rdma_base_address + 0x00020240

abbrev pub rn_rdma_qcsr_lstrqreq_i : ℕ
rn_rdma_qcsr_lstrqreq_i = rn_rdma_base_address + 0x00020244

abbrev pub rn_rdma_qcsr_destqpconf_i : ℕ
rn_rdma_qcsr_destqpconf_i = rn_rdma_base_address + 0x00020248

abbrev pub rn_rdma_qcsr_macdesaddlsb_i : ℕ
rn_rdma_qcsr_macdesaddlsb_i = rn_rdma_base_address + 0x00020250

abbrev pub rn_rdma_qcsr_macdesaddmsb_i : ℕ
rn_rdma_qcsr_macdesaddmsb_i = rn_rdma_base_address + 0x00020254

abbrev pub rn_rdma_qcsr_ipdesaddr1_i : ℕ
rn_rdma_qcsr_ipdesaddr1_i = rn_rdma_base_address + 0x00020260

abbrev pub rn_rdma_qcsr_ipdesaddr2_i : ℕ
rn_rdma_qcsr_ipdesaddr2_i = rn_rdma_base_address + 0x00020264

abbrev pub rn_rdma_qcsr_ipdesaddr3_i : ℕ
rn_rdma_qcsr_ipdesaddr3_i = rn_rdma_base_address + 0x00020268

abbrev pub rn_rdma_qcsr_ipdesaddr4_i : ℕ
rn_rdma_qcsr_ipdesaddr4_i = rn_rdma_base_address + 0x0002026C

abbrev pub rn_rdma_qcsr_statssn_i : ℕ
rn_rdma_qcsr_statssn_i = rn_rdma_base_address + 0x00020280

abbrev pub rn_rdma_qcsr_statmsn_i : ℕ
rn_rdma_qcsr_statmsn_i = rn_rdma_base_address + 0x00020284

abbrev pub rn_rdma_qcsr_statqp_i : ℕ
rn_rdma_qcsr_statqp_i = rn_rdma_base_address + 0x00020288

abbrev pub rn_rdma_qcsr_statcursqptr_i : ℕ
rn_rdma_qcsr_statcursqptr_i = rn_rdma_base_address + 0x0002028C

abbrev pub rn_rdma_qcsr_statrespsn_i : ℕ
rn_rdma_qcsr_statrespsn_i = rn_rdma_base_address + 0x00020290

abbrev pub rn_rdma_qcsr_statrqbufca_i : ℕ
rn_rdma_qcsr_statrqbufca_i = rn_rdma_base_address + 0x00020294

abbrev pub rn_rdma_qcsr_statwqe_i : ℕ
rn_rdma_qcsr_statwqe_i = rn_rdma_base_address + 0x00020298

abbrev pub rn_rdma_qcsr_statrqpidb_i : ℕ
rn_rdma_qcsr_statrqpidb_i = rn_rdma_base_address + 0x0002029C

abbrev pub rn_rdma_qcsr_pd_i : ℕ
rn_rdma_qcsr_pd_i = rn_rdma_base_address + 0x000202B0

abbrev pub rn_rdma_qcsr_statrqbufcamsb_i : ℕ
rn_rdma_qcsr_statrqbufcamsb_i = rn_rdma_base_address + 0x000202D8
