-- ===== src/CachingFs.antt =====
-- The caching file system, ex4/CachingFileSystem.cpp: Block, Cache, Read, System, Handlers,
-- Mounted, Session and Start hold the definitions, and the other children prove what they are named
-- for.
pub mod Block
pub mod Cache
pub mod Read
pub mod Search
pub mod Counters
pub mod Labels
pub mod Parts
pub mod Coherence
pub mod Whole
pub mod Later
pub mod System
pub mod Handlers
pub mod Mounted
pub mod Number
pub mod Frames
pub mod Untouched
pub mod Kept
pub mod Lasting
pub mod Directory
pub mod Stale
pub mod Session
pub mod Renaming
pub mod Refinement
pub mod Start
mod Tests
