-- ===== src/Blockchain/Chain.antt =====
-- The globals of ex3/blockchain.cpp and its internal functions. An exception of `at` and a pointer
-- that is null or was deleted are `fault`; a loop that never ends is `spins`.
use os_huji.Prelude.{
  ℕ, zero, suc, ◌+◌, ℤ, Bool, Option, none, some, List, [], ◌∷◌, ltb, ◌==◌, if◌then◌else◌, Table,
  lookup, insert,
}
use os_huji.Blockchain.Block.{
  Block, Heap, deref, update, free, set_depth, set_hashed_data, set_father_index, set_next,
}

-- Where the daemon stands in `addAndHash`, with the block and the father it has settled on.
pub record Work : Type 0 where
  pub block : ℕ
  pub father : Option ℕ

pub record Chain : Type 0 where
  pub heap : Heap
  pub block_map : Table
  pub block_queue : List ℕ
  pub vec_index : List ℕ
  pub is_initiated : Bool
  pub currently_blocked : Bool
  pub is_in_daemon : Option ℕ
  pub size_counter : ℕ
  pub s_mutex : Bool
  pub in_hand : Option Work

-- What the program is linked with or cannot know: the hash library, `random_shuffle`,
-- `pthread_create`, and what stands in memory behind the end of `vecIndex` and of `blockMap`.
pub record Env : Type 0 where
  pub generate_nonce : ℕ → Option ℕ → ℤ
  pub generate_hash : Option (List ℕ) → ℕ → ℤ → List ℕ
  pub random_shuffle : List ℕ → List ℕ
  pub pthread_create : ℤ
  pub past_indexes : ℕ
  pub past_map : ℕ → ℕ → Bool

pub data Outcome {ℓ} (A : Type ℓ) : Type ℓ where
  done : A → Outcome A
  fault spins : Outcome A

infixl 5 ◌>>=◌
abbrev pub ◌>>=◌ {ι κ} : {A : Type ι} → {B : Type κ} → Outcome A → (A → Outcome B) → Outcome B
done x >>= next = next x
fault >>= next = fault
spins >>= next = spins

abbrev pub or_fault {ℓ} : {A : Type ℓ} → Option A → Outcome A
or_fault none = fault
or_fault (some a) = done a

-- `existBlock`, from position `i` on.
unfoldable pub exist_block_from : ℕ → ℕ → Heap → List ℕ → Outcome (Option ℕ)
exist_block_from i k h [] = done none
exist_block_from i k h (a ∷ q) = do
  b ← or_fault (deref h a)
  let rest = exist_block_from (suc i) k h q
  if b.index == k then done (some i) else rest

unfoldable pub exist_block : ℕ → Chain → Outcome (Option ℕ)
unfolding exist_block_from
exist_block k s = exist_block_from 0 k s.heap s.block_queue

-- The blocks of the map, in order.
unfoldable pub blocks_of : Heap → Table → Outcome (List Block)
blocks_of h [] = done []
blocks_of h ((k, a) ∷ m) = do b ← or_fault (deref h a); bs ← blocks_of h m; done (b ∷ bs)

-- The depth that `max_element` finds.
abbrev pub max_depth : List Block → ℕ
max_depth [] = 0
max_depth (b ∷ bs) = if ltb b.depth (max_depth bs) then max_depth bs else b.depth

abbrev pub indexes_at : ℕ → List Block → List ℕ
indexes_at d [] = []
indexes_at d (b ∷ bs) = if b.depth == d then b.index ∷ indexes_at d bs else indexes_at d bs

abbrev pub first : List ℕ → Option ℕ
first [] = none
first (x ∷ xs) = some x

-- `findFather`; `none` is FAIL.
unfoldable pub find_father : Env → Chain → Outcome (Option ℕ)
find_father env s = elim s.block_map [
  | [] ↦ done none
  | e ∷ m ↦ do
    bs ← blocks_of s.heap s.block_map
    k ← or_fault (first (env.random_shuffle (indexes_at (max_depth bs) bs)))
    done (some k)
]

-- The loop of `findMinIdx` over the sorted indexes.
unfoldable pub min_idx_from : ℕ → List ℕ → ℕ
min_idx_from i [] = i
min_idx_from i (x ∷ xs) = if i == x then min_idx_from (suc i) xs else i

-- `popBlock`: the block, and the queue without it.
unfoldable pub pop_block : ℕ → Heap → List ℕ → Outcome (Option ℕ × List ℕ)
pop_block k h [] = done (none, [])
pop_block k h (a ∷ q) = do
  b ← or_fault (deref h a)
  let rest = pop_block k h q
  if b.index == k then done (some a, q) else (do (o, q') ← rest; done (o, a ∷ q'))

-- The father that `addAndHash` settles on, the one of the block or the end of a longest chain; or
-- its early return of FAIL, with nobody to attach to.
pub data Settled : Type 0 where
  settled : Option ℕ → Chain → Settled
  nobody : Chain → Settled

unfoldable pub settle_father : Env → ℕ → Block → Chain → Outcome Settled
settle_father env a b s =
    if b.attach_to_longest
    then (do
      father ← find_father env s
      elim father [
        | none ↦ done (nobody s)
        | some f ↦ do
          fa ← or_fault (lookup f s.block_map)
          fb ← or_fault (deref s.heap fa)
          done (settled (some f) (record s { heap = update s.heap a (set_depth (fb.depth + 1)) }))
      ])
    else done (settled b.father_index s)

-- `addAndHash` up to the look for the father in the map, which is where a hash takes its time.
unfoldable pub start_hash : Env → ℕ → Chain → Outcome Chain
start_hash env a s = do
  b ← or_fault (deref s.heap a)
  r ← settle_father env a b (record s { is_in_daemon = some b.index })
  elim r [
    | nobody s1 ↦ done s1
    | settled father s1 ↦
        let hash = env.generate_hash b.contents b.len_data (env.generate_nonce b.index father) in
        done (record s1 {
          heap = update (update s1.heap a (set_hashed_data hash)) a (set_father_index father);
          in_hand = some (record { block = a; father = father });
        })
  ]

-- The entry of the map under an index that may be -1.
abbrev pub lookup_father : Option ℕ → Table → Option ℕ
lookup_father none m = none
lookup_father (some f) m = lookup f m

-- The rest of `addAndHash`: a block whose father is gone is deleted.
unfoldable pub attach_block : Work → Chain → Outcome Chain
attach_block w s = elim (lookup_father w.father s.block_map) [
  | none ↦ done (record s { heap = free s.heap w.block; in_hand = none })
  | some fa ↦ do
    b ← or_fault (deref s.heap w.block)
    done (record s {
      heap = update s.heap w.block (set_next fa);
      block_map = insert b.index w.block s.block_map;
      in_hand = none;
    })
]

abbrev pub count_block : Chain → Chain
count_block s = record s { size_counter = s.size_counter + 1 }

-- The first half of a round of `daemonFunction`, which takes the front of the queue; the whole
-- round if `addAndHash` returns early.
unfoldable pub daemon_takes : Env → Chain → Outcome Chain
daemon_takes env s = if s.currently_blocked then done s else elim s.in_hand [
  | some w ↦ done s
  | none ↦ elim s.block_queue [
    | [] ↦ done s
    | a ∷ q ↦ do
      b ← or_fault (deref s.heap a)
      (popped, q') ← pop_block b.index s.heap s.block_queue
      a' ← or_fault popped
      s1 ← start_hash env a' (record s { block_queue = q' })
      elim s1.in_hand [ none ↦ done (count_block s1) | some w ↦ done s1 ]
  ]
]

-- The second half: the block that was taken is attached or dropped, and counted.
unfoldable pub daemon_attaches : Chain → Outcome Chain
daemon_attaches s = elim s.in_hand [
  | none ↦ done s
  | some w ↦ do s1 ← attach_block w s; done (count_block s1)
]

-- A round of `daemonFunction` with no call in between, and a number of them.
unfoldable pub daemon_round : Env → Chain → Outcome Chain
daemon_round env s = do s1 ← daemon_takes env s; daemon_attaches s1

unfoldable pub daemon_rounds : Env → ℕ → Chain → Outcome Chain
daemon_rounds env zero s = done s
daemon_rounds env (suc n) s = do s1 ← daemon_round env s; daemon_rounds env n s1
