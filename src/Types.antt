-- ===== src/Types.antt =====
-- core/src/types.rs and the parts of the block header that the light client reads.
pub mod Header
pub mod Grandpa
pub mod Block
pub mod Conversion
pub mod Samples
