-- ===== src/Blockchain/Close.antt =====
-- `close_chain`, the thread that it starts, and `return_on_close` of ex3/blockchain.cpp.
use os_huji.Prelude.{
  ℕ, zero, suc, true, false, Option, none, some, List, [], ◌∷◌, ◌&&◌, length, if◌then◌else◌, Table,
}
use os_huji.Blockchain.Block.{Heap, deref, free}
use os_huji.Blockchain.Chain.{
  Chain, Env, Outcome, done, spins, ◌>>=◌, or_fault, pop_block, start_hash, attach_block,
}
use os_huji.Blockchain.Library.{Answer, returns, unsuccessful}

-- What one round of the thread prints: a hash and an index.
pub record Line : Type 0 where
  pub hash : List ℕ
  pub index : ℕ

-- `addAndHash` in one go; its result is not looked at.
unfoldable pub add_and_hash : Env → ℕ → Chain → Outcome Chain
add_and_hash env a s = do
  s1 ← start_hash env a s
  elim s1.in_hand [ none ↦ done s1 | some w ↦ attach_block w s1 ]

-- The block is read again behind `addAndHash`, which may have deleted it.
unfoldable pub close_block : Env → ℕ → Chain → Outcome (Chain × Line)
close_block env a s = do
  b ← or_fault (deref s.heap a)
  (popped, q) ← pop_block b.index s.heap s.block_queue
  a' ← or_fault popped
  s1 ← add_and_hash env a' (record s { block_queue = q })
  b' ← or_fault (deref s1.heap a)
  hash ← or_fault b'.hashed_data
  done (s1, record { hash = hash; index = b'.index })

-- The loop, for `fuel` rounds.
unfoldable pub close_queue : Env → ℕ → Chain → Outcome (Chain × List Line)
close_queue env zero s = elim s.block_queue [ [] ↦ done (s, []) | a ∷ q ↦ spins ]
close_queue env (suc n) s = elim s.block_queue [
  | [] ↦ done (s, [])
  | a ∷ q ↦ do
    (s1, line) ← close_block env a s
    (s2, lines) ← close_queue env n s1
    done (s2, line ∷ lines)
]

unfoldable pub free_blocks : Table → Heap → Heap
free_blocks [] h = h
free_blocks ((k, a) ∷ m) h = free_blocks m (free h a)

-- `closeChainThread`, once the daemon has left `queueMutex`. Each round takes a block from the
-- queue, so its length is enough fuel.
unfoldable pub close_chain_thread : Env → Chain → Outcome (Chain × List Line)
close_chain_thread env s = do
  (s1, lines) ← close_queue env (length s.block_queue) s
  done (
    record s1 {
      heap = free_blocks s1.block_map s1.heap;
      block_map = [];
      vec_index = [];
      size_counter = 0;
      currently_blocked = false;
      is_initiated = false;
      s_mutex = false;
    },
    lines,
  )

-- `close_chain` starts the thread, and goes on whether or not that succeeds.
unfoldable pub close_chain : Chain → Chain
close_chain s = if s.is_initiated then record s { currently_blocked = true } else s

-- `return_on_close`; `none` while it waits for the thread.
unfoldable pub return_on_close : Chain → Option Answer
return_on_close s =
    if s.currently_blocked && s.is_initiated then none else some (returns unsuccessful)
