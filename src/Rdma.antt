-- ===== src/Rdma.antt =====
-- lib/rdma_api.c: the RDMA device, its protection domains and its queue pairs.
pub mod Device
pub mod Pd
pub mod Qp
pub mod Wqe
pub mod Dump
pub mod Send
pub mod Receive
pub mod Destroy
pub mod Lifecycle
