-- ===== src/Balancing.antt =====
-- core/infrastructure/distributed/load_balancing.py
pub mod Registry
pub mod Selection
pub mod Health
mod Examples
