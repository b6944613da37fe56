-- ===== src/Blockchain/Answers.antt =====
-- What `was_added` of ex3/blockchain.cpp answers.
use os_huji.Prelude.{ℕ, ◌<◌, ◌≡◌, none, arith, lookup}
use os_huji.Blockchain.Chain.{Chain}
use os_huji.Blockchain.Invariant.{Inv, queued, queued-count}
use os_huji.Blockchain.Waiting.{Finds}

pub Finds-owner :
    (k : ℕ) (s : Chain)
    → Inv s
    → Finds k s.heap s.block_queue
    → (0 < queued k s.heap s.block_queue) × (lookup k s.block_map ≡ none)
Finds-owner k s v f =
    let some_place : 0 < queued k s.heap s.block_queue =
      ground
        (arith, f.inside, f.named, queued-count s.heap f.address f.block s.block_queue f.here) in
    (some_place, ground (arith, v.counted k, v.once k))
