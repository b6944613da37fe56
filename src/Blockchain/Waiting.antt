-- ===== src/Blockchain/Waiting.antt =====
-- `existBlock` and `popBlock` of ex3/blockchain.cpp on a queue of live blocks.
use os_huji.Prelude.{
  ℕ, suc, ◌+◌, ◌<◌, ◌≡◌, refl, ◌⊎◌, inl, inr, false, Option, none, some, List, [], ◌∷◌, count,
  erase, get_elem?, ◌==◌, Bool-cases, arith,
}
use os_huji.Blockchain.Block.{Block, Heap, deref}
use os_huji.Blockchain.Chain.{Chain, done, exist_block_from, pop_block}
use os_huji.Blockchain.Invariant.{Inv, queued}

-- Every address of the queue is that of a live block.
abbrev pub AllLive : Heap → List ℕ → Type 0
AllLive h q = (a : ℕ) → 0 < count a q → (b : Block) × (deref h a ≡ some b)

pub Inv-AllLive : (s : Chain) → Inv s → AllLive s.heap s.block_queue
Inv-AllLive s v a l = let p = v.pending a l in (p.block, p.here)

-- The first block with the index: where it stands, and what both searches find.
pub record Finds (k : ℕ) (h : Heap) (q : List ℕ) : Type 0 where
  pub address : ℕ
  pub block : Block
  pub position : ℕ
  pub here : deref h address ≡ some block
  pub named : block.index ≡ k
  pub inside : 0 < count address q
  pub at_position : get_elem? q position ≡ some address
  pub exists : (i : ℕ) → exist_block_from i k h q ≡ done (some (i + position))
  pub pops : pop_block k h q ≡ done (some address, erase address q)

Finds-here :
    (k a : ℕ) (h : Heap) (q : List ℕ) (b : Block)
    → AllLive h (a ∷ q)
    → ((i : ℕ) → (o : Option ℕ) × (exist_block_from i k h q ≡ done o))
    → deref h a ≡ some b
    → b.index ≡ k
    → Finds k h (a ∷ q)
unfolding exist_block_from pop_block
Finds-here k a h q b live rest here named = record {
  address = a;
  block = b;
  position = 0;
  here = here;
  named = named;
  inside = ground arith;
  at_position = refl;
  exists = λ i. ground (arith, (rest (suc i)).1);
  pops = ground arith;
}

Finds-later :
    (k a : ℕ) (h : Heap) (q : List ℕ) (b : Block)
    → deref h a ≡ some b
    → (b.index == k) ≡ false
    → Finds k h q
    → Finds k h (a ∷ q)
unfolding exist_block_from pop_block
Finds-later k a h q b here other f = record {
  address = f.address;
  block = f.block;
  position = suc f.position;
  here = f.here;
  named = f.named;
  inside = ground (arith, f.inside);
  at_position = f.at_position;
  exists = λ i. ground (arith, f.exists (suc i));
  pops = ground (arith, f.pops, f.here, f.named);
}

-- Either the index is not among the waiting blocks, and `existBlock` fails; or it is found.
pub search_lem :
    (k : ℕ) (h : Heap) (q : List ℕ)
    → AllLive h q
    → ((queued k h q ≡ 0) × ((i : ℕ) → exist_block_from i k h q ≡ done none)) ⊎ Finds k h q
unfolding exist_block_from
search_lem k h [] live = inl (refl, λ i. refl)
search_lem k h (a ∷ q) live =
    let (b, here) = live a (ground arith) in
    let rest = search_lem k h q (λ c l. live c (ground arith)) in
    elim (Bool-cases (b.index == k)) [
      | inl mine ↦ inr (
          Finds-here k a h q b live
            (λ i. elim rest [
              | inl (nobody, fails) ↦ (none, fails i)
              | inr f ↦ (some (i + f.position), f.exists i)
            ])
            here (ground arith))
      | inr other ↦ elim rest [
        | inl (nobody, fails) ↦ inl (ground arith, λ i. ground (arith, fails (suc i)))
        | inr f ↦ inr (Finds-later k a h q b here other f)
      ]
    ]
