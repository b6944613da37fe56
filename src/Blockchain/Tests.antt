-- ===== src/Blockchain/Tests.antt =====
-- Runs of the model of ex3/blockchain.cpp, and applications of its theorems.
mod Pruning
mod Ends
use os_huji.Prelude.{
  ℕ, ◌+◌, ◌≤◌, ◌<◌, ◌≡◌, ◌≢◌, refl, true, false, none, some, List, [], ◌∷◌, ◌++◌, count, erase, map,
  sort, keys, pos, success, fail, subst, arith, lookup, insert,
}
use os_huji.Blockchain.Block.{Block, deref, new_block, set_attach_to_longest, update, free}
use os_huji.Blockchain.Chain.{
  Chain, Env, Outcome, ◌>>=◌, done, fault, spins, find_father, daemon_round, daemon_rounds,
  blocks_of, min_idx_from, exist_block_from, exist_block, pop_block, settle_father, start_hash,
  attach_block, daemon_takes, daemon_attaches,
}
use os_huji.Blockchain.Library.{
  returns, waits_for_block, waits_for_mutex, add_block, to_longest, attach_now, was_added, wake,
  found, unsuccessful, is_zero, init_blockchain, find_min_idx, chain_size,
}
use os_huji.Blockchain.Prune.{mark_longest, prune_indexes, prune_map, unmark, prune_chain}
use os_huji.Blockchain.Close.{
  Line, close_chain, close_chain_thread, return_on_close, add_and_hash, close_block, close_queue,
  free_blocks,
}
use os_huji.Blockchain.Father.{Shuffles, find_father_deepest}
use os_huji.Blockchain.Indexes.{find_min_idx_lowest}
use os_huji.Blockchain.Invariant.{Inv, Keeps, Attached→Named, queued}
use os_huji.Blockchain.Adding.{add_block_lowest}
use os_huji.Blockchain.Rounds.{Attaches, daemon_round-Attaches, daemon_rounds-drain}
use os_huji.Blockchain.Marking.{marked, to_longest_marks}
use os_huji.Blockchain.Hurrying.{attach_now_attaches, attach_now_waits}
use os_huji.Blockchain.Trace.{Act, adds, takes, attaches, play, play-Keeps, act}
use os_huji.Blockchain.Starting.{Shut, opened, opened-Inv, init_blockchain_opens}
use os_huji.Blockchain.Closing.{waiting, close_chain-Shut}

pub program : Unit {0}
unfolding new_block deref update free exist_block_from exist_block blocks_of find_father
    min_idx_from pop_block settle_father start_hash attach_block daemon_takes daemon_attaches
    daemon_round daemon_rounds init_blockchain find_min_idx add_block to_longest attach_now wake
    was_added chain_size mark_longest prune_indexes prune_map unmark prune_chain add_and_hash
    close_block close_queue free_blocks close_chain_thread close_chain return_on_close act play
    lookup insert
program = tt

-- The hash of data is its length, the nonce is the index, and the shuffle does nothing.
abbrev pub env : Env
env = record {
  generate_nonce = λ k f. pos k;
  generate_hash = λ bytes len nonce. len ∷ [];
  random_shuffle = λ ks. ks;
  pthread_create = pos 0;
  past_indexes = 1000;
  past_map = λ k a. false;
}

pub env-Shuffles : Shuffles env
env-Shuffles k ks = refl

abbrev pub boot : Chain
boot = record {
  heap = [];
  block_map = [];
  block_queue = [];
  vec_index = [];
  is_initiated = false;
  currently_blocked = false;
  is_in_daemon = none;
  size_counter = 0;
  s_mutex = false;
  in_hand = none;
}

pub boot-Shut : Shut boot
boot-Shut = record {
  block_map = refl;
  block_queue = refl;
  vec_index = refl;
  in_hand = refl;
  currently_blocked = refl;
  is_initiated = refl;
  s_mutex = refl;
}

abbrev pub chain_of : Outcome Chain → Chain
chain_of (done s) = s
chain_of fault = boot
chain_of spins = boot

-- Two blocks wait behind one that is attached.
abbrev story : List (Env × Act)
story =
    (env, adds (some (7 ∷ 8 ∷ [])) 2)
    ∷ (env, takes)
    ∷ (env, adds (some (9 ∷ [])) 1)
    ∷ (env, attaches)
    ∷ (env, adds none 0)
    ∷ []

pub after : Chain
unfolding program
after = chain_of (play story (opened boot))

after_runs : play story (opened boot) ≡ done after
unfolding after
after_runs = refl

play-Keeps_example : Keeps (λ x. x) (play story (opened boot))
play-Keeps_example =
    play-Keeps story (opened boot) (opened-Inv boot boot-Shut)
      (env-Shuffles, (env-Shuffles, (env-Shuffles, (env-Shuffles, (env-Shuffles, tt)))))

pub after-Inv : Inv after
after-Inv = subst (Keeps (λ x. x)) after_runs play-Keeps_example

after_queue : waiting after.heap after.block_queue ≡ 2 ∷ 3 ∷ []
unfolding after
after_queue = refl

add_block_lowest_example :
    (idx : ℕ) × (s' : Chain) × (add_block env (some (5 ∷ [])) 1 after
      ≡ done (s', returns (pos idx)))
    × Inv s'
    × (count idx after.vec_index ≡ 0)
    × ((k : ℕ) → k < idx → 0 < count k after.vec_index)
    × (s'.block_map ≡ after.block_map)
    × (s'.block_queue ≡ 2 ∷ 3 ∷ 4 ∷ [])
    × (f : ℕ) × (a : ℕ) × (father : Block) × (lookup f after.block_map ≡ some a)
    × (deref after.heap a ≡ some father)
    × ((j c : ℕ) (d : Block)
        → lookup j after.block_map ≡ some c
        → deref after.heap c ≡ some d
        → d.depth ≤ father.depth)
    × (deref s'.heap 4 ≡ some (new_block (some (5 ∷ [])) idx (some f) (father.depth + 1) 1))
unfolding after
add_block_lowest_example = add_block_lowest env (some (5 ∷ [])) 1 after after-Inv env-Shuffles refl

daemon_round-Attaches_example :
    (b : Block) × (s' : Chain) × (deref after.heap 2 ≡ some b)
    × (daemon_round env after ≡ done s')
    × Attaches env after 2 (3 ∷ []) b s'
unfolding after
daemon_round-Attaches_example =
    daemon_round-Attaches env after 2 (3 ∷ []) after-Inv env-Shuffles refl refl refl

daemon_rounds-drain_example :
    (s' : Chain) × (daemon_rounds env 2 after ≡ done s')
    × Inv s'
    × (s'.block_queue ≡ [])
    × (s'.size_counter ≡ 3)
    × ((k : ℕ) → 0 < count k after.vec_index → lookup k s'.block_map ≢ none)
unfolding after
daemon_rounds-drain_example = daemon_rounds-drain env after after-Inv env-Shuffles refl refl

to_longest_marks_example :
    ((a : ℕ) → lookup 3 after.block_map ≡ some a → to_longest 3 after ≡ done (after, returns found))
    × (0 < queued 3 after.heap after.block_queue
        → (a : ℕ) × (b : Block) × (to_longest 3 after ≡ done (marked a after, returns success))
          × (0 < count a after.block_queue)
          × (deref after.heap a ≡ some b)
          × (b.index ≡ 3)
          × (deref (marked a after).heap a ≡ some (set_attach_to_longest true b))
          × ((c : ℕ) → c ≢ a → deref (marked a after).heap c ≡ deref after.heap c)
          × Inv (marked a after))
    × (lookup 3 after.block_map ≡ none
        → queued 3 after.heap after.block_queue ≡ 0
        → to_longest 3 after ≡ done (after, returns unsuccessful))
unfolding after
to_longest_marks_example = to_longest_marks 3 after after-Inv refl

attach_now_attaches_example :
    (a : ℕ) × (s1 : Chain) × (s2 : Chain) × (attach_now 3 after ≡ done (s1, waits_for_block 3))
    × (s1.block_queue ≡ a ∷ erase a after.block_queue)
    × (daemon_round env s1 ≡ done s2)
    × (lookup 3 s2.block_map ≡ some a)
    × (wake 3 s2 ≡ returns success)
    × (s2.block_queue ≡ erase a after.block_queue)
    × Inv s2
unfolding after
attach_now_attaches_example =
    attach_now_attaches env 3 after after-Inv env-Shuffles refl refl refl (omega arith)
