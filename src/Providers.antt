-- ===== src/Providers.antt =====
-- The calls to the providers of language models: providers/resilience.js.
pub mod Classify
pub mod Retry
pub mod Attempts
mod Examples
