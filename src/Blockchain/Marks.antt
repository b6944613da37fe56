-- ===== src/Blockchain/Marks.antt =====
-- The first loop of `prune_chain` in ex3/blockchain.cpp marks the chain from a block to the genesis
-- block.
use os_huji.Prelude.{
  ℕ, zero, suc, ◌≡◌, inl, inr, true, none, some, List, [], ◌∷◌, contains, ◌||◌, arith, Table,
  lookup,
}
use os_huji.Blockchain.Block.{Block, Heap, deref, update, set_is_in_longest}
use os_huji.Blockchain.Chain.{Outcome, done}
use os_huji.Blockchain.Prune.{mark_longest}
use os_huji.Blockchain.Store.{deref-update}
use os_huji.Blockchain.Invariant.{Attached}

-- The indexes of the blocks from the one at `a` on, each followed by its father.
abbrev pub path : ℕ → Heap → ℕ → List ℕ
path zero h a = []
path (suc n) h a = elim (deref h a) [
  | none ↦ []
  | some b ↦ elim b.next [ none ↦ b.index ∷ [] | some f ↦ b.index ∷ path n h f ]
]

-- In `h` exactly the entries of the map under `ks` are marked; apart from that it is `h0` there.
abbrev pub Marks : Heap → Table → Heap → List ℕ → Type 0
Marks h0 m h ks =
    (k c : ℕ) (b : Block)
    → lookup k m ≡ some c
    → deref h0 c ≡ some b
    → deref h c ≡ some (set_is_in_longest (contains k ks) b)

module _ (h0 : Heap) (m : Table) (tree : (k a : ℕ) → lookup k m ≡ some a → Attached h0 m k a) where
  pub Marks-update :
      (h : Heap) (ks : List ℕ) (k a : ℕ) (b : Block)
      → Marks h0 m h ks
      → lookup k m ≡ some a
      → deref h0 a ≡ some b
      → Marks h0 m (update h a (set_is_in_longest true)) (k ∷ ks)
  Marks-update h ks k a b w e here j c d f g =
      let tk = tree k a e in
      let tj = tree j c f in
      ground (
        arith,
        w j c d f g,
        deref-update h a c (set_is_in_longest true),
        tk.here,
        tk.named,
        tj.here,
        tj.named,
      )

  -- Together with the genesis block, the loop marks what is on the path.
  abbrev pub Reaches : ℕ → ℕ → Heap → List ℕ → Outcome Heap → Type 0
  Reaches n a h ks r =
      (h' : Heap) × (ks' : List ℕ) × (r ≡ done h')
      × Marks h0 m h' ks'
      × ((j : ℕ) → contains j (0 ∷ ks') ≡ (contains j (path (suc n) h0 a) || contains j ks))

  genesis-Reaches :
      (n k a : ℕ) (b : Block) (h : Heap) (ks : List ℕ)
      → lookup k m ≡ some a
      → deref h0 a ≡ some b
      → Marks h0 m h ks
      → k ≡ 0
      → b.index ≡ k
      → b.next ≡ none
      → Reaches n a h ks (mark_longest (suc n) m k h)
  unfolding mark_longest
  genesis-Reaches n k a b h ks e here w first named last =
      (h, ks, ground (arith, w k a b e here), w, λ j. ground arith)

  pub mark_longest-Reaches :
      (n k a : ℕ) (b : Block) (h : Heap) (ks : List ℕ)
      → lookup k m ≡ some a
      → deref h0 a ≡ some b
      → b.depth ≡ n
      → Marks h0 m h ks
      → Reaches n a h ks (mark_longest (suc n) m k h)
  unfolding mark_longest
  mark_longest-Reaches zero k a b h ks e here depth w =
      let t = tree k a e in
      let same : t.block ≡ b = ground (arith, t.here) in
      elim t.link [
        | inl (first, last, z) ↦
            genesis-Reaches 0 k a b h ks e here w first (ground (arith, same, t.named))
              (ground (arith, same, last))
        | inr (other, l) ↦ absurd (ground (arith, l.depth, same))
      ]
  mark_longest-Reaches (suc n) k a b h ks e here depth w =
      let t = tree k a e in
      let same : t.block ≡ b = ground (arith, t.here) in
      elim t.link [
        | inl (first, last, z) ↦ absurd (ground (arith, z, same))
        | inr (other, l) ↦
            let h1 : Heap = update h a (set_is_in_longest true) in
            let (h', ks', ran, w', all) =
              mark_longest-Reaches n l.father.index l.address l.father h1 (k ∷ ks) l.found l.here
                (ground (arith, l.depth, same)) (Marks-update h ks k a b w e here) in
            (
              h',
              ks',
              ground (
                arith,
                w k a b e here,
                w l.father.index l.address l.father l.found l.here,
                l.next,
                same,
                ran,
              ),
              w',
              λ j. ground (arith, all j, l.next, same, t.named),
            )
      ]
