-- ===== src/Retry.antt =====
-- codex_shim/net/retry.py: waits between attempts, the throttle clock, the loops that post and connect.
pub mod Policy
pub mod Throttle
pub mod Loop
pub mod Connect
pub mod Urllib
