-- ===== src/Audit.antt =====
-- internal/audit: the audit log and what is made of it.
pub mod Events
pub mod Denials
pub mod Rules
pub mod Roller
pub mod Logger
pub mod Scan
