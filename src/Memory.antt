-- ===== src/Memory.antt =====
-- internal/link/adapters/memory. A mutex makes each call one step, so a call is a function of the
-- map that it finds.
pub mod Repository
pub mod Idempotency
