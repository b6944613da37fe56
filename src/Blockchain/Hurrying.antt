-- ===== src/Blockchain/Hurrying.antt =====
-- `attach_now` of ex3/blockchain.cpp puts a block first, and waits for it.
use os_huji.Prelude.{
  ℕ, ◌<◌, ◌≡◌, refl, inl, inr, false, none, some, List, ◌∷◌, count, erase, count-erase-hit, success,
  arith, lookup,
}
use os_huji.Blockchain.Chain.{Chain, Env, done, exist_block, daemon_round, daemon_rounds}
use os_huji.Blockchain.Library.{returns, waits_for_block, refuses, same_index, attach_now, wake}
use os_huji.Blockchain.Father.{Shuffles}
use os_huji.Blockchain.Invariant.{Inv, queued}
use os_huji.Blockchain.Queue.{queued-erase}
use os_huji.Blockchain.Waiting.{search_lem, Inv-AllLive}
use os_huji.Blockchain.Rounds.{daemon_round-Attaches}
use os_huji.Blockchain.Between.{Between, daemon_rounds-Between}
use os_huji.Blockchain.Answers.{Finds-owner}

-- The state with a waiting block at the front.
abbrev pub hurried : ℕ → Chain → Chain
hurried a s = record s { block_queue = a ∷ erase a s.block_queue }

hurried-count : (a c : ℕ) (q : List ℕ) → 0 < count a q → count c (a ∷ erase a q) ≡ count c q
hurried-count a c q l = ground (arith, count-erase-hit a c q l)

pub hurried-Inv : (s : Chain) (a : ℕ) → Inv s → 0 < count a s.block_queue → Inv (hurried a s)
hurried-Inv s a v l = record {
  sorted = v.sorted;
  genesis = v.genesis;
  attached = v.attached;
  pending = λ c h. v.pending c (omega (arith, h, hurried-count a c s.block_queue l));
  hand = v.hand;
  counted = λ k. omega (arith, v.counted k, queued-erase k a s.heap s.block_queue l);
  once = v.once;
}

-- While the chain takes calls and the daemon holds no block, `attach_now` of a waiting block,
-- unless its index is the one that the daemon hashed last, puts the block before all others, whose
-- order it keeps, and waits; the next round of the daemon attaches the block, and then the call
-- returns SUCCESS.
pub attach_now_attaches :
    (env : Env) (k : ℕ) (s : Chain)
    → Inv s
    → Shuffles env
    → refuses s ≡ false
    → s.in_hand ≡ none
    → same_index k s.is_in_daemon ≡ false
    → 0 < queued k s.heap s.block_queue
    → (a : ℕ) × (s1 : Chain) × (s2 : Chain) × (attach_now k s ≡ done (s1, waits_for_block k))
      × (s1.block_queue ≡ a ∷ erase a s.block_queue)
      × (daemon_round env s1 ≡ done s2)
      × (lookup k s2.block_map ≡ some a)
      × (wake k s2 ≡ returns success)
      × (s2.block_queue ≡ erase a s.block_queue)
      × Inv s2
unfolding attach_now exist_block wake
attach_now_attaches env k s v shuffles open_chain idle other waits =
    elim (search_lem k s.heap s.block_queue (Inv-AllLive s v)) [
      | inl (nobody, fails) ↦ absurd (omega arith)
      | inr f ↦
          let a = f.address in
          let s1 : Chain = hurried a s in
          let (b, s2, was, ran, w) =
            daemon_round-Attaches env s1 a (erase a s.block_queue) (hurried-Inv s a v f.inside)
              shuffles (ground arith) idle refl in
          (
            a,
            s1,
            s2,
            ground (arith, f.exists 0, f.pops, Finds-owner k s v f),
            refl,
            ran,
            ground (arith, w.found, was, f.here, f.named),
            ground (arith, w.found, was, f.here, f.named),
            w.queue,
            w.inv,
          )
    ]

-- While the chain takes calls and the daemon holds no block, `attach_now` of an index that no
-- block has, if it is the one that the daemon hashed last (the block was pruned since), waits, and
-- goes on waiting through any number of rounds of the daemon.
pub attach_now_waits :
    (env : Env) (k n : ℕ) (s s' : Chain)
    → Inv s
    → Shuffles env
    → refuses s ≡ false
    → s.in_hand ≡ none
    → s.is_in_daemon ≡ some k
    → count k s.vec_index ≡ 0
    → daemon_rounds env n s ≡ done s'
    → (attach_now k s ≡ done (s, waits_for_block k)) × (wake k s' ≡ waits_for_block k)
unfolding attach_now wake
attach_now_waits env k n s s' v shuffles open_chain idle stale free ran =
    let start : Between s s = record {
      inv = v;
      open_chain = ground arith;
      idle = idle;
      indexes = refl;
    } in
    let w : Between s s' = daemon_rounds-Between env n s s s' shuffles start ran in
    (ground (arith, v.counted k), ground (arith, w.inv.counted k, w.indexes))
