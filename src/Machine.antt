-- ===== src/Machine.antt =====
-- What the library's functions run on: the objects that its pointers lead to, the accesses made
-- to the memory-mapped registers, and the ways in which a call ends. The FPGA, `malloc`, the page
-- map and the character device are no code of the repository: they are the parameters of `Env`.
mod Heap
mod Platform
mod Run
pub mod Trace
pub mod Poll
pub use Heap.*
pub use Run.*
pub use Platform.*
