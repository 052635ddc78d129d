-- ===== src/Registers/Gcsr.antt =====
-- The global control and status registers of the RDMA engine (lib/reconic_reg.h).
use reco_nic.Prelude.{ℕ, ◌+◌}
use reco_nic.Registers.Base.{rn_rdma_base_address}

abbrev pub rn_rdma_gcsr_xrnicconf : ℕ
rn_rdma_gcsr_xrnicconf = rn_rdma_base_address + 0x00020000

abbrev pub rn_rdma_gcsr_xrnicadconf : ℕ
rn_rdma_gcsr_xrnicadconf = rn_rdma_base_address + 0x00020004

abbrev pub rn_rdma_gcsr_macxaddlsb : ℕ
rn_rdma_gcsr_macxaddlsb = rn_rdma_base_address + 0x00020010

abbrev pub rn_rdma_gcsr_macxaddmsb : ℕ
rn_rdma_gcsr_macxaddmsb = rn_rdma_base_address + 0x00020014

abbrev pub rn_rdma_gcsr_ipv6xadd1 : ℕ
rn_rdma_gcsr_ipv6xadd1 = rn_rdma_base_address + 0x00020020

abbrev pub rn_rdma_gcsr_ipv6xadd2 : ℕ
rn_rdma_gcsr_ipv6xadd2 = rn_rdma_base_address + 0x00020024

abbrev pub rn_rdma_gcsr_ipv6xadd3 : ℕ
rn_rdma_gcsr_ipv6xadd3 = rn_rdma_base_address + 0x00020028

abbrev pub rn_rdma_gcsr_ipv6xadd4 : ℕ
rn_rdma_gcsr_ipv6xadd4 = rn_rdma_base_address + 0x0002002C

abbrev pub rn_rdma_gcsr_ipv4xadd : ℕ
rn_rdma_gcsr_ipv4xadd = rn_rdma_base_address + 0x00020070

abbrev pub rn_rdma_gcsr_errbufba : ℕ
rn_rdma_gcsr_errbufba = rn_rdma_base_address + 0x00020060

abbrev pub rn_rdma_gcsr_errbufbamsb : ℕ
rn_rdma_gcsr_errbufbamsb = rn_rdma_base_address + 0x00020064

abbrev pub rn_rdma_gcsr_errbufsz : ℕ
rn_rdma_gcsr_errbufsz = rn_rdma_base_address + 0x00020068

abbrev pub rn_rdma_gcsr_errbufwptr : ℕ
rn_rdma_gcsr_errbufwptr = rn_rdma_base_address + 0x0002006C

abbrev pub rn_rdma_gcsr_ipkterrqba : ℕ
rn_rdma_gcsr_ipkterrqba = rn_rdma_base_address + 0x00020088

abbrev pub rn_rdma_gcsr_ipkterrqbamsb : ℕ
rn_rdma_gcsr_ipkterrqbamsb = rn_rdma_base_address + 0x0002008C

abbrev pub rn_rdma_gcsr_ipkterrqsz : ℕ
rn_rdma_gcsr_ipkterrqsz = rn_rdma_base_address + 0x00020090

abbrev pub rn_rdma_gcsr_ipkterrqwptr : ℕ
rn_rdma_gcsr_ipkterrqwptr = rn_rdma_base_address + 0x00020094

abbrev pub rn_rdma_gcsr_datbufba : ℕ
rn_rdma_gcsr_datbufba = rn_rdma_base_address + 0x000200A0

abbrev pub rn_rdma_gcsr_datbufbamsb : ℕ
rn_rdma_gcsr_datbufbamsb = rn_rdma_base_address + 0x000200A4

abbrev pub rn_rdma_gcsr_datbufsz : ℕ
rn_rdma_gcsr_datbufsz = rn_rdma_base_address + 0x000200A8

abbrev pub rn_rdma_gcsr_insrrpktcnt : ℕ
rn_rdma_gcsr_insrrpktcnt = rn_rdma_base_address + 0x00020100

abbrev pub rn_rdma_gcsr_inampktcnt : ℕ
rn_rdma_gcsr_inampktcnt = rn_rdma_base_address + 0x00020104

abbrev pub rn_rdma_gcsr_outiopktcnt : ℕ
rn_rdma_gcsr_outiopktcnt = rn_rdma_base_address + 0x00020108

abbrev pub rn_rdma_gcsr_lstinpkt : ℕ
rn_rdma_gcsr_lstinpkt = rn_rdma_base_address + 0x00020110

abbrev pub rn_rdma_gcsr_lstoutpkt : ℕ
rn_rdma_gcsr_lstoutpkt = rn_rdma_base_address + 0x00020114

abbrev pub rn_rdma_gcsr_ininvdupcnt : ℕ
rn_rdma_gcsr_ininvdupcnt = rn_rdma_base_address + 0x00020118

abbrev pub rn_rdma_gcsr_innckpktsts : ℕ
rn_rdma_gcsr_innckpktsts = rn_rdma_base_address + 0x0002011C

abbrev pub rn_rdma_gcsr_outrnrpktsts : ℕ
rn_rdma_gcsr_outrnrpktsts = rn_rdma_base_address + 0x00020120

abbrev pub rn_rdma_gcsr_wqeprocsts : ℕ
rn_rdma_gcsr_wqeprocsts = rn_rdma_base_address + 0x00020124

abbrev pub rn_rdma_gcsr_qpmsts : ℕ
rn_rdma_gcsr_qpmsts = rn_rdma_base_address + 0x0002012C

abbrev pub rn_rdma_gcsr_inten : ℕ
rn_rdma_gcsr_inten = rn_rdma_base_address + 0x00020180

abbrev pub rn_rdma_gcsr_outampktcnt : ℕ
rn_rdma_gcsr_outampktcnt = rn_rdma_base_address + 0x0002010C

abbrev pub rn_rdma_gcsr_inalldrppktcnt : ℕ
rn_rdma_gcsr_inalldrppktcnt = rn_rdma_base_address + 0x00020130

abbrev pub rn_rdma_gcsr_innakpktcnt : ℕ
rn_rdma_gcsr_innakpktcnt = rn_rdma_base_address + 0x00020134

abbrev pub rn_rdma_gcsr_outnakpktcnt : ℕ
rn_rdma_gcsr_outnakpktcnt = rn_rdma_base_address + 0x00020138

abbrev pub rn_rdma_gcsr_resphndsts : ℕ
rn_rdma_gcsr_resphndsts = rn_rdma_base_address + 0x0002013C

abbrev pub rn_rdma_gcsr_retrycntsts : ℕ
rn_rdma_gcsr_retrycntsts = rn_rdma_base_address + 0x00020140

abbrev pub rn_rdma_gcsr_incnppktcnt : ℕ
rn_rdma_gcsr_incnppktcnt = rn_rdma_base_address + 0x00020174

abbrev pub rn_rdma_gcsr_outcnppktcnt : ℕ
rn_rdma_gcsr_outcnppktcnt = rn_rdma_base_address + 0x00020178

abbrev pub rn_rdma_gcsr_outrdrsppktcnt : ℕ
rn_rdma_gcsr_outrdrsppktcnt = rn_rdma_base_address + 0x0002017C

abbrev pub rn_rdma_gcsr_intsts : ℕ
rn_rdma_gcsr_intsts = rn_rdma_base_address + 0x00020184

abbrev pub rn_rdma_gcsr_rqintsts1 : ℕ
rn_rdma_gcsr_rqintsts1 = rn_rdma_base_address + 0x00020190

abbrev pub rn_rdma_gcsr_rqintsts2 : ℕ
rn_rdma_gcsr_rqintsts2 = rn_rdma_base_address + 0x00020194

abbrev pub rn_rdma_gcsr_rqintsts3 : ℕ
rn_rdma_gcsr_rqintsts3 = rn_rdma_base_address + 0x00020198

abbrev pub rn_rdma_gcsr_rqintsts4 : ℕ
rn_rdma_gcsr_rqintsts4 = rn_rdma_base_address + 0x0002019c

abbrev pub rn_rdma_gcsr_rqintsts5 : ℕ
rn_rdma_gcsr_rqintsts5 = rn_rdma_base_address + 0x000201a0

abbrev pub rn_rdma_gcsr_rqintsts6 : ℕ
rn_rdma_gcsr_rqintsts6 = rn_rdma_base_address + 0x000201a4

abbrev pub rn_rdma_gcsr_rqintsts7 : ℕ
rn_rdma_gcsr_rqintsts7 = rn_rdma_base_address + 0x000201a8

abbrev pub rn_rdma_gcsr_rqintsts8 : ℕ
rn_rdma_gcsr_rqintsts8 = rn_rdma_base_address + 0x000201ac

abbrev pub rn_rdma_gcsr_cqintsts1 : ℕ
rn_rdma_gcsr_cqintsts1 = rn_rdma_base_address + 0x000201b0

abbrev pub rn_rdma_gcsr_cqintsts2 : ℕ
rn_rdma_gcsr_cqintsts2 = rn_rdma_base_address + 0x000201b4

abbrev pub rn_rdma_gcsr_cqintsts3 : ℕ
rn_rdma_gcsr_cqintsts3 = rn_rdma_base_address + 0x000201b8

abbrev pub rn_rdma_gcsr_cqintsts4 : ℕ
rn_rdma_gcsr_cqintsts4 = rn_rdma_base_address + 0x000201bc

abbrev pub rn_rdma_gcsr_cqintsts5 : ℕ
rn_rdma_gcsr_cqintsts5 = rn_rdma_base_address + 0x000201c0

abbrev pub rn_rdma_gcsr_cqintsts6 : ℕ
rn_rdma_gcsr_cqintsts6 = rn_rdma_base_address + 0x000201c4

abbrev pub rn_rdma_gcsr_cqintsts7 : ℕ
rn_rdma_gcsr_cqintsts7 = rn_rdma_base_address + 0x000201c8

abbrev pub rn_rdma_gcsr_cqintsts8 : ℕ
rn_rdma_gcsr_cqintsts8 = rn_rdma_base_address + 0x000201cc

abbrev pub rn_rdma_gcsr_resperrpktba : ℕ
rn_rdma_gcsr_resperrpktba = rn_rdma_base_address + 0x000200B0

abbrev pub rn_rdma_gcsr_resperrpktbamsb : ℕ
rn_rdma_gcsr_resperrpktbamsb = rn_rdma_base_address + 0x000200B4

abbrev pub rn_rdma_gcsr_resperrsz : ℕ
rn_rdma_gcsr_resperrsz = rn_rdma_base_address + 0x000200B8

abbrev pub rn_rdma_gcsr_resperrszmsb : ℕ
rn_rdma_gcsr_resperrszmsb = rn_rdma_base_address + 0x000200BC

abbrev pub rn_rdma_gcsr_statcursqptr_i : ℕ
rn_rdma_gcsr_statcursqptr_i = rn_rdma_base_address + 0x0002028C

abbrev pub rn_rdma_gcsr_statmsn : ℕ
rn_rdma_gcsr_statmsn = rn_rdma_base_address + 0x00020284
