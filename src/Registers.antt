-- ===== src/Registers.antt =====
-- The register map of lib/reconic_reg.h. Each name is the macro's, in lower case.
mod Base
mod Gcsr
mod Pdt
mod Qcsr
pub use Base.*
pub use Gcsr.*
pub use Pdt.*
pub use Qcsr.*
