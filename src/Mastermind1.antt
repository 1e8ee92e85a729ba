-- ===== src/Mastermind1.antt =====
-- proj1/mastermind.c, the first version of the driver: one game for all users, six colours.
pub mod Score
pub mod Match
pub mod Device
pub mod Load
mod Tests
