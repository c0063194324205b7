-- ===== src/Buffer.antt =====
-- The package buffer/.
pub mod Vint
pub mod Block
pub mod StaticBlock
pub mod Manager
