-- ===== src/Tests.antt =====
-- Concrete inputs: tests by evaluation, and the theorems at inputs where their hypotheses hold.
mod World
mod Retries
mod Runs
mod Bundles
mod Times
mod Schemas
mod Ingestions
mod Locks
