-- ===== src/Blockchain/Prune.antt =====
-- `prune_chain` of ex3/blockchain.cpp. Its two loops compare the current element with the one
-- behind the end instead of comparing iterators, so what stands there can end them early.
use os_huji.Prelude.{
  ℕ, zero, suc, true, false, none, some, List, [], ◌∷◌, ◌==◌, if◌then◌else◌, success, fail, Table,
  lookup,
}
use os_huji.Blockchain.Block.{Heap, deref, update, set_is_in_longest}
use os_huji.Blockchain.Chain.{Chain, Env, Outcome, done, spins, ◌>>=◌, or_fault, find_father}
use os_huji.Blockchain.Library.{Call, returns, refuses}

-- `blockMap.at(k)`, as an address.
abbrev pub at : Table → ℕ → Outcome ℕ
at m k = or_fault (lookup k m)

-- The loop that marks the chain from the block `k` on, for `fuel` rounds.
unfoldable pub mark_longest : ℕ → Table → ℕ → Heap → Outcome Heap
mark_longest zero m k h = spins
mark_longest (suc fuel) m k h = do
  a ← at m k
  b ← or_fault (deref h a)
  elim b.next [
    | none ↦ done h
    | some f ↦ do
      fb ← or_fault (deref h f)
      mark_longest fuel m fb.index (update h a (set_is_in_longest true))
  ]

abbrev pub last : ℕ → List ℕ → ℕ
last x [] = x
last x (y ∷ ys) = last y ys

-- The loop over `vecIndex`: `past` is what stands behind the end. An `erase` moves the elements
-- behind the position down, so that the last one stands behind the new end too.
unfoldable pub prune_indexes : Heap → Table → ℕ → List ℕ → Outcome (List ℕ)
prune_indexes h m past [] = done []
prune_indexes h m past (x ∷ xs) = if x == past then done (x ∷ xs) else (do
  a ← at m x
  b ← or_fault (deref h a)
  elim b.is_in_longest [
    | true ↦ do rest ← prune_indexes h m past xs; done (x ∷ rest)
    | false ↦ prune_indexes h m (last x xs) xs
  ])

-- The loop over `blockMap`, which does not free what it erases.
unfoldable pub prune_map : Env → Heap → Table → Outcome Table
prune_map env h [] = done []
prune_map env h ((k, a) ∷ m) = if env.past_map k a then done ((k, a) ∷ m) else (do
  b ← or_fault (deref h a)
  rest ← prune_map env h m
  done (if b.is_in_longest then (k, a) ∷ rest else rest))

-- The last loop.
unfoldable pub unmark : Table → Heap → Heap
unmark [] h = h
unmark ((k, a) ∷ m) h = unmark m (update h a (set_is_in_longest false))

-- The fuel for the first loop is the depth of the block that it starts from, and one.
unfoldable pub prune_chain : Env → Chain → Call
prune_chain env s = if refuses s then done (s, returns fail) else (do
  longest ← find_father env s
  k ← or_fault longest
  a ← at s.block_map k
  b ← or_fault (deref s.heap a)
  h1 ← mark_longest (suc b.depth) s.block_map k s.heap
  g ← at s.block_map 0
  let h2 = update h1 g (set_is_in_longest true)
  indexes ← prune_indexes h2 s.block_map env.past_indexes s.vec_index
  m ← prune_map env h2 s.block_map
  done (record s { heap = unmark m h2; vec_index = indexes; block_map = m }, returns success))
