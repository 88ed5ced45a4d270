-- ===== src/Types.antt =====
-- src/python/ksc/type.py: the types of the Knossos IR.
pub mod Defs
pub mod Equality
pub mod Accept
pub mod Size
pub mod Tangent
