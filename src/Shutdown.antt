-- ===== src/Shutdown.antt =====
-- wolnut/shutdown.py: the UPS snapshot and `ShutdownCoordinator`. Python's `round(float(s))` is an
-- argument: `none` where it raises (and for nan and inf, which raise in `round`).
pub mod Snapshot
pub mod Readings
pub mod Coordinator
pub mod Steps
pub mod Words
pub mod Requests
pub mod Outcomes
pub mod Answers
pub mod Total
