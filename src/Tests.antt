-- ===== src/Tests.antt =====
-- The theorems on concrete data.
mod Data
mod Documents
mod Portals
mod Settings
mod Windows
mod Uploads
mod Registries
mod Commands
mod Audits
mod Measures
mod Utf8
mod Bronze
mod Gold
mod Conservation
mod Tables
