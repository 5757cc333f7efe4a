-- ===== src/Loop.antt =====
-- wolnut/cli.py: the monitoring loop of `main`, one round at a time. What a round reads from the world
-- is a `Poll`: each clock reading, ping, answer and file operation by itself. A round returns the state
-- of the loop and what it did, or the exception that ends the program.
pub mod World
pub mod Wake
pub mod Power
pub mod Updates
pub mod Round
pub mod Complete
pub mod Safe
pub mod Waking
pub mod Due
pub mod Quiet
pub mod Faults
