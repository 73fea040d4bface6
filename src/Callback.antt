-- ===== src/Callback.antt =====
-- Where async responses may be sent: internal/callbackpolicy/policy.go.
pub mod Address
pub mod Policy
pub mod Permission
pub mod Delivery
pub mod Poll
mod Samples
