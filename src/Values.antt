-- ===== src/Values.antt =====
-- The value objects of the domain, core/domain/value_objects/.
pub mod Confidence
pub mod Money
mod Examples
