-- ===== src/Blockchain/Father.antt =====
-- `findFather` of ex3/blockchain.cpp returns the index of a deepest block.
use os_huji.Prelude.{
  ℕ, suc, ◌≤◌, ◌≡◌, refl, inl, inr, Bool-cases, true, some, List, [], ◌∷◌, All, ltb, sym, ◌∙◌, ◌==◌,
  contains, arith, Table, lookup, lookup_below, IsSorted, IsFrom,
}
use os_huji.Blockchain.Block.{Block, Heap, deref}
use os_huji.Blockchain.Chain.{
  Chain, Env, done, blocks_of, max_depth, indexes_at, first, find_father,
}
use os_huji.Blockchain.Store.{lookup-All}

-- `random_shuffle` keeps the elements.
abbrev pub Shuffles : Env → Type 0
Shuffles env = (k : ℕ) (ks : List ℕ) → contains k (env.random_shuffle ks) ≡ contains k ks

-- A live block stands at the address, under its own index.
pub record Named (h : Heap) (k a : ℕ) : Type 0 where
  pub block : Block
  pub here : deref h a ≡ some block
  pub named : block.index ≡ k

-- The list holds exactly the blocks of the map.
record Lists (h : Heap) (m : Table) (bs : List Block) : Type 0 where
  covers : (k a : ℕ) (b : Block) → lookup k m ≡ some a → deref h a ≡ some b → b.depth ≤ max_depth bs
  only :
      (k d : ℕ)
      → contains k (indexes_at d bs) ≡ true
      → (a : ℕ) × (b : Block) × (lookup k m ≡ some a) × (deref h a ≡ some b) × (b.depth ≡ d)
  deepest :
      (k a : ℕ) → lookup k m ≡ some a → (j : ℕ) × (contains j (indexes_at (max_depth bs) bs) ≡ true)

indexes_at_max :
    (b : Block) (bs : List Block)
    → (k : ℕ) × (contains k (indexes_at (max_depth (b ∷ bs)) (b ∷ bs)) ≡ true)
indexes_at_max b [] = (b.index, ground arith)
indexes_at_max b (c ∷ bs) = elim (Bool-cases (ltb b.depth (max_depth (c ∷ bs)))) [
  | inl deeper ↦ let (k, e) = indexes_at_max c bs in (k, ground arith)
  | inr first_one ↦ (b.index, ground arith)
]

blocks_of_lem :
    (i : ℕ) (h : Heap) (m : Table)
    → IsFrom i m
    → All (λ e. Named h e.0 e.1) m
    → (bs : List Block) × (blocks_of h m ≡ done bs) × Lists h m bs
unfolding blocks_of lookup
blocks_of_lem i h [] v l = (
  [],
  refl,
  record {
    covers = λ k a b e d. ground arith;
    only = λ k d e. absurd (ground arith);
    deepest = λ k a e. absurd (ground arith);
  },
)
blocks_of_lem i h ((k, a) ∷ m) v l =
    let (bs, e, w) = blocks_of_lem (suc k) h m v.1 l.1 in
    let n : Named h k a = l.0 in
    (
      n.block ∷ bs,
      ground (arith, n.here),
      record {
        covers = λ j c b f d. ground (arith, n.here, w.covers j c b);
        only = λ j d f. elim (Bool-cases (n.block.depth == d)) [
          | inl same ↦ elim (Bool-cases (j == n.block.index)) [
            | inl mine ↦ (a, n.block, ground (arith, n.named), n.here, ground arith)
            | inr other ↦
                let (c, b, x, y, z) = w.only j d (ground arith) in
                (c, b, ground (arith, lookup_below (suc k) j m v.1), y, z)
          ]
          | inr other ↦
              let (c, b, x, y, z) = w.only j d (ground arith) in
              (c, b, ground (arith, lookup_below (suc k) j m v.1), y, z)
        ];
        deepest = λ j c e. indexes_at_max n.block bs;
      },
    )

-- The first index of a list is in it.
first_of :
    (ks : List ℕ) (k : ℕ)
    → contains k ks ≡ true
    → (j : ℕ) × (first ks ≡ some j) × (contains j ks ≡ true)
first_of [] k e = absurd (ground arith)
first_of (x ∷ ks) k e = (x, refl, ground arith)

find_father_of :
    (env : Env) (s : Chain) (bs : List Block) (k0 a0 k : ℕ)
    → lookup k0 s.block_map ≡ some a0
    → blocks_of s.heap s.block_map ≡ done bs
    → first (env.random_shuffle (indexes_at (max_depth bs) bs)) ≡ some k
    → find_father env s ≡ done (some k)
unfolding find_father lookup
find_father_of env s bs k0 a0 k e ran f = go s.block_map refl
  where
    go : (m : Table) → s.block_map ≡ m → find_father env s ≡ done (some k)
    go [] is = absurd (ground arith)
    go (x ∷ m) is = ground arith

-- On a map in key order whose entries are live blocks under their own indexes, and which is not
-- empty, `findFather` returns an entry of it whose block is at least as deep as every block of the
-- map, however the shuffle orders the candidates.
pub find_father_deepest :
    (env : Env) (s : Chain) (k0 a0 : ℕ)
    → Shuffles env
    → IsSorted s.block_map
    → ((k a : ℕ) → lookup k s.block_map ≡ some a → Named s.heap k a)
    → lookup k0 s.block_map ≡ some a0
    → (k : ℕ) × (a : ℕ) × (b : Block) × (find_father env s ≡ done (some k))
      × (lookup k s.block_map ≡ some a)
      × (deref s.heap a ≡ some b)
      × (b.index ≡ k)
      × ((j c : ℕ) (d : Block)
          → lookup j s.block_map ≡ some c
          → deref s.heap c ≡ some d
          → d.depth ≤ b.depth)
find_father_deepest env s k0 a0 shuffles v named e =
    let (bs, ran, w) =
      blocks_of_lem 0 s.heap s.block_map v (lookup-All (Named s.heap) 0 s.block_map v named) in
    let (k1, f1) = w.deepest k0 a0 e in
    let chosen = env.random_shuffle (indexes_at (max_depth bs) bs) in
    let (k, is_first, inside) =
      first_of chosen k1 (shuffles k1 (indexes_at (max_depth bs) bs) ∙ f1) in
    let (a, b, x, y, z) =
      w.only k (max_depth bs) (sym (shuffles k (indexes_at (max_depth bs) bs)) ∙ inside) in
    let n : Named s.heap k a = named k a x in
    (
      k,
      a,
      b,
      find_father_of env s bs k0 a0 k e ran is_first,
      x,
      y,
      ground (arith, n.here, n.named),
      λ j c d p q. omega (arith, w.covers j c d p q, z),
    )
