-- ===== src/Blockchain/Starting.antt =====
-- `init_blockchain` of ex3/blockchain.cpp.
use os_huji.Prelude.{
  ◌≡◌, refl, true, false, none, some, [], ◌∷◌, ◌++◌, length, inl, success, fail, lookup, insert,
  arith,
}
use os_huji.Blockchain.Block.{new_block}
use os_huji.Blockchain.Chain.{Chain, Env, done}
use os_huji.Blockchain.Library.{returns, waits_for_mutex, is_zero, init_blockchain}
use os_huji.Blockchain.Store.{deref-alloc}
use os_huji.Blockchain.Invariant.{Inv}

-- No chain is open, and nothing is left of an earlier one but its deleted blocks.
pub record Shut (s : Chain) : Type 0 where
  pub block_map : s.block_map ≡ []
  pub block_queue : s.block_queue ≡ []
  pub vec_index : s.vec_index ≡ []
  pub in_hand : s.in_hand ≡ none
  pub currently_blocked : s.currently_blocked ≡ false
  pub is_initiated : s.is_initiated ≡ false
  pub s_mutex : s.s_mutex ≡ false

abbrev pub opened : Chain → Chain
opened s = record s {
  s_mutex = true;
  heap = s.heap ++ some (new_block none 0 none 0 0) ∷ [];
  block_map = (0, length s.heap) ∷ [];
  vec_index = 0 ∷ [];
  is_initiated = true;
}

pub opened-Inv : (s : Chain) → Shut s → Inv (opened s)
unfolding new_block lookup
opened-Inv s v = record {
  sorted = omega arith;
  genesis = (length s.heap, refl);
  attached = λ k a e. record {
    block = new_block none 0 none 0 0;
    here = ground (arith, deref-alloc s.heap (new_block none 0 none 0 0) a);
    named = ground arith;
    clean = refl;
    link = inl (ground arith, refl, refl);
  };
  pending = λ a l. absurd (ground (arith, v.block_queue));
  hand = λ w e. absurd (ground (arith, v.in_hand));
  counted = λ k. ground (arith, v.block_queue, v.in_hand);
  once = λ k. ground arith;
}

-- With no chain open, `init_blockchain` returns SUCCESS if the daemon can be started, and opens a
-- chain that holds the genesis block alone and satisfies the invariant. If the daemon cannot be
-- started, it returns FAIL and keeps `s_mutex` locked, so that every later call of it waits for
-- that mutex for ever.
pub init_blockchain_opens :
    (env : Env) (s : Chain)
    → Shut s
    → (is_zero env.pthread_create ≡ true
        → (s' : Chain) × (init_blockchain env s ≡ done (s', returns success))
          × Inv s'
          × (s'.is_initiated ≡ true)
          × (s'.currently_blocked ≡ false)
          × (s'.in_hand ≡ none)
          × (s'.block_queue ≡ [])
          × (s'.vec_index ≡ 0 ∷ [])
          × (s'.size_counter ≡ s.size_counter))
      × (is_zero env.pthread_create ≡ false
          → (s' : Chain) × (init_blockchain env s ≡ done (s', returns fail))
            × ((later : Env) → init_blockchain later s' ≡ done (s', waits_for_mutex)))
unfolding init_blockchain insert
init_blockchain_opens env s v = (
  λ started. (
    opened s,
    ground (arith, v.block_map, v.vec_index, v.currently_blocked, v.is_initiated, v.s_mutex),
    opened-Inv s v,
    refl,
    v.currently_blocked,
    v.in_hand,
    v.block_queue,
    refl,
    refl,
  ),
  λ failed. (
    record s { s_mutex = true },
    ground (arith, v.currently_blocked, v.is_initiated, v.s_mutex),
    λ later. ground (arith, v.currently_blocked, v.is_initiated),
  ),
)
