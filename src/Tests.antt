-- ===== src/Tests.antt =====
-- Small concrete inputs on which the theorems about code/ are applied.
pub mod Data
mod Wire
mod Bytes
pub mod Messages
