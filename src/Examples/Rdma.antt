-- ===== src/Examples/Rdma.antt =====
-- examples/rdma_test and examples/network_systolic_mm: what their programs share, mapped to write.c:
-- the options, the setup of the device, the waits for the user, and what is freed at the end. The
-- switch `-g`, sockets but for the bytes that they give, and all output are not modelled.
pub mod Setup
pub mod Steps
pub mod Write
pub mod Read
pub mod Client
pub mod WriteLaws
pub mod Handshake
pub mod Location
pub mod Batches
pub mod BatchElements
pub mod BatchLaws
pub mod Check
pub mod ReadLaws
pub mod ReadTransfer
pub mod SendRecv
pub mod Network
pub mod NetworkLaws
