-- ===== src/Supervisor.antt =====
-- toad/internal/supervisor: how long to wait before the process is started again.
pub mod Backoff
