-- ===== src/Fallback.antt =====
-- The fallback walk over providers: internal/gateway/fallback.go.
pub mod Classify
pub mod Exhaustion
pub mod Types
pub mod Walk
mod Samples
