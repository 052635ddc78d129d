-- ===== src/Examples.antt =====
-- examples/: the programs that use the library, or that drive the card on their own.
pub mod Dma
pub mod Systolic
pub mod Rdma
