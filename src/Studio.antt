-- ===== src/Studio.antt =====
-- internal/studio: short-lived explorations and the visitors' choices.
pub mod Model
pub mod Visits
pub mod View
pub mod Generation
pub mod Choosing
pub mod Entering
pub mod Sound
pub mod Refusing
pub mod Persistent
pub mod Transaction
pub mod Handlers
pub mod System
pub mod Succeeding
mod Samples
mod Tests
