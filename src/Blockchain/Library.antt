-- ===== src/Blockchain/Library.antt =====
-- The library functions of ex3/blockchain.cpp, all but `prune_chain` and the closing of the chain.
use os_huji.Prelude.{
  ℕ, ◌+◌, ℤ, pos, negsuc, success, fail, Bool, true, false, ◌||◌, not, Option, none, some, List, [],
  ◌∷◌, ◌++◌, sort, ◌==◌, if◌then◌else◌, lookup, insert, get_elem?,
}
use os_huji.Blockchain.Block.{deref, update, alloc, new_block, set_attach_to_longest}
use os_huji.Blockchain.Chain.{
  Chain, Env, Outcome, done, ◌>>=◌, or_fault, exist_block, find_father, min_idx_from, pop_block,
}

-- A call returns; or it goes round a loop, or waits for a mutex, until other threads have acted.
pub data Answer : Type 0 where
  returns : ℤ → Answer
  waits_for_block : ℕ → Answer
  waits_for_mutex : Answer

abbrev pub Call : Type 0
Call = Outcome (Chain × Answer)

-- FOUND, NOT_FOUND and UNSUCCESSFUL.
abbrev pub found : ℤ
found = pos 1

abbrev pub not_found : ℤ
not_found = pos 0

abbrev pub unsuccessful : ℤ
unsuccessful = negsuc 1

abbrev pub refuses : Chain → Bool
refuses s = not s.is_initiated || s.currently_blocked

abbrev pub same_index : ℕ → Option ℕ → Bool
same_index k none = false
same_index k (some i) = k == i

abbrev pub is_some : Option ℕ → Bool
is_some none = false
is_some (some a) = true

-- `pthread_create` returns 0 for success.
abbrev pub is_zero : ℤ → Bool
is_zero (pos n) = n == 0
is_zero (negsuc n) = false

unfoldable pub init_blockchain : Env → Chain → Call
init_blockchain env s =
    if s.currently_blocked || s.is_initiated
    then done (s, returns fail)
    else if s.s_mutex
    then done (s, waits_for_mutex)
    else if not (is_zero env.pthread_create)
    then done (record s { s_mutex = true }, returns fail)
    else (let (a, h) = alloc s.heap (new_block none 0 none 0 0) in
        done (
          record s {
            s_mutex = true;
            heap = h;
            block_map = insert 0 a s.block_map;
            vec_index = s.vec_index ++ 0 ∷ [];
            is_initiated = true;
          },
          returns success,
        ))

-- `findMinIdx`, which leaves `vecIndex` sorted.
unfoldable pub find_min_idx : Chain → ℕ × Chain
find_min_idx s =
    let indexes = sort s.vec_index in (min_idx_from 0 indexes, record s { vec_index = indexes })

unfoldable pub add_block : Env → Option (List ℕ) → ℕ → Chain → Call
add_block env bytes len s = if refuses s then done (s, returns fail) else (do
  let (idx, s1) = find_min_idx s
  father ← find_father env s1
  f ← or_fault father
  fa ← or_fault (lookup f s1.block_map)
  fb ← or_fault (deref s1.heap fa)
  let (a, h) = alloc s1.heap (new_block bytes idx (some f) (fb.depth + 1) len)
  done (
    record s1 {
      heap = h;
      vec_index = s1.vec_index ++ idx ∷ [];
      block_queue = s1.block_queue ++ a ∷ [];
    },
    returns (pos idx),
  ))

unfoldable pub to_longest : ℕ → Chain → Call
to_longest k s =
    if not s.is_initiated then done (s, returns fail) else elim (lookup k s.block_map) [
      | some a ↦ done (s, returns found)
      | none ↦ do
        idx ← exist_block k s
        elim idx [
          | none ↦ done (s, returns unsuccessful)
          | some i ↦ do
            a ← or_fault (get_elem? s.block_queue i)
            done (record s { heap = update s.heap a (set_attach_to_longest true) }, returns success)
        ]
    ]

unfoldable pub attach_now : ℕ → Chain → Call
attach_now k s = if refuses s then done (s, returns fail) else elim (lookup k s.block_map) [
  | some a ↦ done (s, returns success)
  | none ↦ if same_index k s.is_in_daemon then done (s, waits_for_block k) else (do
    idx ← exist_block k s
    elim idx [
      | none ↦ done (s, returns unsuccessful)
      | some i ↦ do
        (popped, q) ← pop_block k s.heap s.block_queue
        a ← or_fault popped
        done (record s { block_queue = a ∷ q }, waits_for_block k)
    ])
]

-- The loops of `attach_now` end when the block is in the map.
unfoldable pub wake : ℕ → Chain → Answer
wake k s = elim (lookup k s.block_map) [ none ↦ waits_for_block k | some a ↦ returns success ]

unfoldable pub was_added : ℕ → Chain → Call
was_added k s = if not s.is_initiated then done (s, returns fail) else elim (lookup k s.block_map) [
  | some a ↦ done (s, returns found)
  | none ↦ do
    idx ← exist_block k s
    if is_some idx || same_index k s.is_in_daemon
        then done (s, returns not_found)
        else done (s, returns unsuccessful)
]

unfoldable pub chain_size : Chain → ℤ
chain_size s = if not s.is_initiated then fail else pos s.size_counter
