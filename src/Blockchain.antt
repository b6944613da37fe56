-- ===== src/Blockchain.antt =====
-- The block chain manager, ex3/blockchain.cpp with ex3/Block.cpp: the definitions stand in Block,
-- Chain, Library, Prune and Close, and the other children prove what they are named for.
pub mod Block
pub mod Chain
pub mod Library
pub mod Prune
pub mod Close
pub mod Store
pub mod Father
pub mod Indexes
pub mod Invariant
pub mod Queue
pub mod Adding
pub mod Taking
pub mod Attaching
pub mod Rounds
pub mod Between
pub mod Waiting
pub mod Answers
pub mod Marking
pub mod Hurrying
pub mod Trace
pub mod Marks
pub mod Pruning
pub mod Starting
pub mod Closing
mod Tests
