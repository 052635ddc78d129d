-- ===== src/Registers/Pdt.antt =====
-- The protection domain table (lib/reconic_reg.h); one entry every 256 bytes.
use reco_nic.Prelude.{ℕ, ◌+◌}
use reco_nic.Registers.Base.{rn_rdma_base_address}

abbrev pub rn_rdma_pdt_pdpdnum : ℕ
rn_rdma_pdt_pdpdnum = rn_rdma_base_address + 0x00000000

abbrev pub rn_rdma_pdt_virtaddrlsb : ℕ
rn_rdma_pdt_virtaddrlsb = rn_rdma_base_address + 0x00000004

abbrev pub rn_rdma_pdt_virtaddrmsb : ℕ
rn_rdma_pdt_virtaddrmsb = rn_rdma_base_address + 0x00000008

abbrev pub rn_rdma_pdt_bufbaseaddrlsb : ℕ
rn_rdma_pdt_bufbaseaddrlsb = rn_rdma_base_address + 0x0000000C

abbrev pub rn_rdma_pdt_bufbaseaddrmsb : ℕ
rn_rdma_pdt_bufbaseaddrmsb = rn_rdma_base_address + 0x00000010

abbrev pub rn_rdma_pdt_bufrkey : ℕ
rn_rdma_pdt_bufrkey = rn_rdma_base_address + 0x00000014

abbrev pub rn_rdma_pdt_wrrdbuflen : ℕ
rn_rdma_pdt_wrrdbuflen = rn_rdma_base_address + 0x00000018

abbrev pub rn_rdma_pdt_accessdesc : ℕ
rn_rdma_pdt_accessdesc = rn_rdma_base_address + 0x0000001C
