-- ===== src/Reconic.antt =====
-- lib/reconic.c: the device, its addresses, its buffers and the windows of its PCIe bridge.
pub mod Address
pub mod Paging
pub mod Buffer
pub mod Bdf
pub mod Create
pub mod Interface
