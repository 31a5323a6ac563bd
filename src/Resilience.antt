-- ===== src/Resilience.antt =====
-- core/infrastructure/resilience/patterns.py: circuit breaker, bulkhead and retries.
pub mod Coroutine
pub mod Breaker
pub mod Bulkhead
pub mod Retry
mod Examples
