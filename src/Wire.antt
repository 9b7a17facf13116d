-- ===== src/Wire.antt =====
-- The root package of the repository: the binary protocol's packets and constants.
pub mod Buffer
pub mod Opcode
pub mod Status
pub mod Layout
pub mod Texts
pub mod Request
pub mod Response
