-- ===== src/Gold.antt =====
-- scripts/gold/build_gold.py: the build of the Gold tables.
pub mod Tables
pub mod Order
pub mod Gates
pub mod Literals
pub mod Quotes
pub mod Placeholders
pub mod Encoding
pub mod ExtraGates
pub mod Selects
pub mod Versions
pub mod Builder
pub mod Build
pub mod Rebuilt
pub mod Green
