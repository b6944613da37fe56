-- ===== src/Blockchain/Tests/Ends.antt =====
-- Applications of the theorems on the beginning and the end of a chain, ex3/blockchain.cpp.
use os_huji.Prelude.{◌≡◌, refl, true, false, none, List, [], ◌∷◌, map, success, fail}
use os_huji.Blockchain.Chain.{Chain, Env, ◌>>=◌, done}
use os_huji.Blockchain.Library.{
  returns, waits_for_block, waits_for_mutex, attach_now, wake, is_zero, init_blockchain,
}
use os_huji.Blockchain.Close.{Line, close_chain, close_chain_thread, return_on_close}
use os_huji.Blockchain.Invariant.{Inv}
use os_huji.Blockchain.Hurrying.{attach_now_waits}
use os_huji.Blockchain.Starting.{Shut, opened, opened-Inv, init_blockchain_opens}
use os_huji.Blockchain.Closing.{close_chain-Shut}
use os_huji.Blockchain.Tests.{
  program, env, env-Shuffles, boot, boot-Shut, chain_of, after, after-Inv,
}

init_blockchain_opens_example :
    (is_zero env.pthread_create ≡ true
      → (s' : Chain) × (init_blockchain env boot ≡ done (s', returns success))
        × Inv s'
        × (s'.is_initiated ≡ true)
        × (s'.currently_blocked ≡ false)
        × (s'.in_hand ≡ none)
        × (s'.block_queue ≡ [])
        × (s'.vec_index ≡ 0 ∷ [])
        × (s'.size_counter ≡ boot.size_counter))
    × (is_zero env.pthread_create ≡ false
        → (s' : Chain) × (init_blockchain env boot ≡ done (s', returns fail))
          × ((later : Env) → init_blockchain later s' ≡ done (s', waits_for_mutex)))
init_blockchain_opens_example = init_blockchain_opens env boot boot-Shut

close_chain-Shut_example :
    (return_on_close (close_chain after) ≡ none)
    × (s' : Chain) × (lines : List Line) × (close_chain_thread env (close_chain after)
        ≡ done (s', lines))
    × (map (λ l. l.index) lines ≡ 2 ∷ 3 ∷ [])
    × (s'.size_counter ≡ 0)
    × Shut s'
unfolding after
close_chain-Shut_example = close_chain-Shut env after after-Inv env-Shuffles refl refl

closed : Chain
unfolding program
closed = chain_of (do r ← close_chain_thread env (close_chain after); done r.0)

closed-Shut : Shut closed
unfolding closed after
closed-Shut = record {
  block_map = refl;
  block_queue = refl;
  vec_index = refl;
  in_hand = refl;
  currently_blocked = refl;
  is_initiated = refl;
  s_mutex = refl;
}

-- The daemon hashed block 3 before the chain was closed and opened again.
attach_now_waits_example :
    (attach_now 3 (opened closed) ≡ done (opened closed, waits_for_block 3))
    × (wake 3 (opened closed) ≡ waits_for_block 3)
unfolding closed after
attach_now_waits_example =
    attach_now_waits env 3 5 (opened closed) (opened closed) (opened-Inv closed closed-Shut)
      env-Shuffles refl refl refl refl refl
