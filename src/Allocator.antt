-- ===== src/Allocator.antt =====
-- hw4/hw4.c: a worst-fit allocator over twelve frames of 32 bytes.
pub mod Heap
pub mod Alloc
pub mod Release
pub mod Blocks
pub mod Calls
pub mod Owned
pub mod Realloc
pub mod Reach
pub mod Threads
pub mod TestProgram
mod Tests
mod Runs
