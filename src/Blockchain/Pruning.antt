-- ===== src/Blockchain/Pruning.antt =====
-- `prune_chain` of ex3/blockchain.cpp on a chain without waiting blocks.
use os_huji.Prelude.{
  ℕ, suc, ◌≤◌, ◌<◌, ◌≡◌, refl, true, false, none, some, List, [], ◌∷◌, contains, count, All,
  Bool-cases, Option-cases, inl, inr, success, ◌==◌, if◌then◌else◌, arith, Table, lookup,
  lookup_below, IsFrom,
}
use os_huji.Blockchain.Block.{Block, Heap, deref, update, set_is_in_longest}
use os_huji.Blockchain.Chain.{Chain, Env, done}
use os_huji.Blockchain.Library.{returns, refuses}
use os_huji.Blockchain.Prune.{last, prune_indexes, prune_map, unmark, prune_chain}
use os_huji.Blockchain.Store.{lookup-All}
use os_huji.Blockchain.Father.{Shuffles, find_father_deepest}
use os_huji.Blockchain.Invariant.{Inv, Attached→Named}
use os_huji.Blockchain.Taking.{IsDeepest}
use os_huji.Blockchain.Marks.{Marks, Marks-update, mark_longest-Reaches, path}

-- The mark of an entry tells whether its index is in the list.
record Marked (h : Heap) (ks : List ℕ) (k a : ℕ) : Type 0 where
  block : Block
  here : deref h a ≡ some block
  mark : block.is_in_longest ≡ contains k ks

module _ (env : Env) (h : Heap) (ks : List ℕ) (whole : (k a : ℕ) → env.past_map k a ≡ false) where
  prune_map_lem :
      (i : ℕ) (m : Table)
      → IsFrom i m
      → All (λ e. Marked h ks e.0 e.1) m
      → (m' : Table) × (prune_map env h m ≡ done m')
        × ((j : ℕ) → lookup j m' ≡ (if contains j ks then lookup j m else none))
  unfolding prune_map lookup
  prune_map_lem i [] v l = ([], refl, λ j. ground arith)
  prune_map_lem i ((k, a) ∷ m) v l =
      let (m', ran, law) = prune_map_lem (suc k) m v.1 l.1 in
      let e : Marked h ks k a = l.0 in
      elim (Bool-cases (contains k ks)) [
        | inl on ↦ (
          (k, a) ∷ m',
          ground (arith, whole k a, e.here, e.mark, ran),
          λ j. ground (arith, law j),
        )
        | inr off ↦ (
          m',
          ground (arith, whole k a, e.here, e.mark, ran),
          λ j. ground (arith, law j, lookup_below (suc k) k m v.1),
        )
      ]

-- The loop over the indexes finds each of them in the map; it keeps the marked ones and adds none.
prune_indexes_lem :
    (h : Heap) (m : Table) (ks : List ℕ) (past : ℕ) (xs : List ℕ)
    → ((k a : ℕ) → lookup k m ≡ some a → Marked h ks k a)
    → ((k : ℕ) → 0 < count k xs → (a : ℕ) × (lookup k m ≡ some a))
    → (xs' : List ℕ) × (prune_indexes h m past xs ≡ done xs')
      × ((k : ℕ) → count k xs' ≤ count k xs)
      × ((k : ℕ) → contains k ks ≡ true → count k xs' ≡ count k xs)
unfolding prune_indexes
prune_indexes_lem h m ks past [] marked inside = ([], refl, (λ k. omega arith), λ k e. refl)
prune_indexes_lem h m ks past (x ∷ xs) marked inside = elim (Bool-cases (x == past)) [
  | inl stops ↦ (x ∷ xs, ground arith, (λ k. omega arith), λ k e. refl)
  | inr goes_on ↦
      let (a, e) = inside x (ground arith) in
      let w = marked x a e in
      let rest : (k : ℕ) → 0 < count k xs → (a' : ℕ) × (lookup k m ≡ some a') =
        λ k l. inside k (ground arith) in
      elim (Bool-cases (contains x ks)) [
        | inl on ↦
            let (xs', ran, fewer, same) = prune_indexes_lem h m ks past xs marked rest in
            (
              x ∷ xs',
              ground (arith, e, w.here, w.mark, ran),
              (λ k. ground (arith, fewer k)),
              λ k f. ground (arith, same k),
            )
        | inr off ↦
            let (xs', ran, fewer, same) = prune_indexes_lem h m ks (last x xs) xs marked rest in
            (
              xs',
              ground (arith, e, w.here, w.mark, ran),
              (λ k. ground (arith, fewer k)),
              λ k f. ground (arith, same k),
            )
      ]
]

-- On a chain that takes calls, with no block waiting or in the daemon's hand, and if the memory
-- behind the end of the map looks like none of its entries, `prune_chain` returns SUCCESS. There is
-- a deepest block such that exactly the blocks on the path from it to the genesis block stay in the
-- map, under their addresses; their indexes stay given out, and no index is given out more often
-- than before.
pub prune_chain_path :
    (env : Env) (s : Chain)
    → Inv s
    → Shuffles env
    → ((k a : ℕ) → env.past_map k a ≡ false)
    → refuses s ≡ false
    → s.block_queue ≡ []
    → s.in_hand ≡ none
    → (s' : Chain) × (prune_chain env s ≡ done (s', returns success))
      × (k : ℕ) × (a : ℕ) × (b : Block) × (lookup k s.block_map ≡ some a)
      × (deref s.heap a ≡ some b)
      × IsDeepest s b.depth
      × ((j : ℕ)
          → lookup j s'.block_map
            ≡ (if contains j (path (suc b.depth) s.heap a) then lookup j s.block_map else none))
      × ((j : ℕ)
          → contains j (path (suc b.depth) s.heap a) ≡ true
          → count j s'.vec_index ≡ count j s.vec_index)
      × ((j : ℕ) → count j s'.vec_index ≤ count j s.vec_index)
unfolding prune_chain
prune_chain_path env s v shuffles whole open_chain nobody idle =
    let (k, a, b, ran, found, here, named, deepest) =
      find_father_deepest env s 0 v.genesis.0 shuffles v.sorted
        (λ j c e. Attached→Named s.heap s.block_map j c (v.attached j c e)) v.genesis.1 in
    let (h1, ks, ran1, w1, all) =
      mark_longest-Reaches s.heap s.block_map v.attached b.depth k a b s.heap [] found here refl
        unmarked in
    let g = v.genesis.0 in
    let t0 = v.attached 0 g v.genesis.1 in
    let h2 : Heap = update h1 g (set_is_in_longest true) in
    let w2 : Marks s.heap s.block_map h2 (0 ∷ ks) =
      Marks-update s.heap s.block_map v.attached h1 ks 0 g t0.block w1 v.genesis.1 t0.here in
    let marked = marks→Marked h2 (0 ∷ ks) w2 in
    let (m', ran3, law) =
      prune_map_lem env h2 (0 ∷ ks) whole 0 s.block_map v.sorted
        (lookup-All (Marked h2 (0 ∷ ks)) 0 s.block_map v.sorted marked) in
    let (xs, ran2, fewer, kept) =
      prune_indexes_lem h2 s.block_map (0 ∷ ks) env.past_indexes s.vec_index marked inside in
    (
      record s { heap = unmark m' h2; vec_index = xs; block_map = m' },
      ground (arith, ran, found, here, ran1, v.genesis.1, ran2, ran3),
      k,
      a,
      b,
      found,
      here,
      deepest,
      (λ j. ground (arith, law j, all j)),
      (λ j e. kept j (ground (arith, all j))),
      fewer,
    )
  where
    unmarked : Marks s.heap s.block_map s.heap []
    unmarked j c d f e = let t = v.attached j c f in ground (arith, t.here, t.clean)

    marks→Marked :
        (h : Heap) (ks : List ℕ)
        → Marks s.heap s.block_map h ks
        → (j c : ℕ) → lookup j s.block_map ≡ some c
        → Marked h ks j c
    marks→Marked h ks w j c e =
        let t = v.attached j c e in
        record {
          block = set_is_in_longest (contains j ks) t.block;
          here = w j c t.block e t.here;
          mark = refl;
        }

    inside : (j : ℕ) → 0 < count j s.vec_index → (c : ℕ) × (lookup j s.block_map ≡ some c)
    inside j l = elim (Option-cases (lookup j s.block_map)) [
      | inl absent ↦ absurd (ground (arith, v.counted j))
      | inr there ↦ there
    ]
