-- ===== src/Mastermind2.antt =====
-- proj2/mastermind2.c: the networked Mastermind driver with one game for each user.
pub mod Score
pub mod State
pub mod Game
pub mod Control
pub mod Network
pub mod Valid
pub mod System
pub mod Room
pub mod Lifecycle
mod Tests
