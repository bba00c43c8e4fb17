-- ===== src/Domain.antt =====
-- internal/domain/domain.go: the product's contracts. `Error` has the errors and their exit
-- codes, `Job` the jobs with their states and events, `Plan` the plans.
pub mod Error
pub mod Fuel
pub mod Job
pub mod Plan
