-- ===== src/Delivery.antt =====
-- The delivery that the owner reviews (delivery/*.js).
pub mod Lineage
pub mod Sessions
pub mod Decisions
pub mod Validation
mod Examples
