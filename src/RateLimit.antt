-- ===== src/RateLimit.antt =====
-- core/infrastructure/rate_limiting/limiter.py: three limiters, client quotas, and the manager that
-- puts two limiters in front of each endpoint.
pub mod Metrics
pub mod Requests
pub mod TokenBucket
pub mod SlidingWindow
pub mod FixedWindow
pub mod Quota
pub mod Manager
mod Examples
