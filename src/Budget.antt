-- ===== src/Budget.antt =====
-- The gateway's budgets: internal/gateway/budget.go and budget_hard.go.
pub mod Period
pub mod Config
pub mod Ledger
pub mod Policy
pub mod Hard
pub mod Wire
pub mod Exchange
pub mod Reducer
pub mod Samples
