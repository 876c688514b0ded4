-- ===== src/Privsep.antt =====
-- internal/privsep: the privileged server process.
pub mod Privileges
pub mod Start
pub mod Server
pub mod Client
mod Tests
