-- ===== src/Ddl.antt =====
-- scripts/ddl/: the definitions of the tables, and the tool that creates and tears them down.
pub mod Scan
pub mod Parser
pub mod Apply
pub mod Commands
