-- ===== src/Blockchain/Queue.antt =====
-- How often an index is among the waiting blocks of ex3/blockchain.cpp, as the queue and the store
-- change.
use os_huji.Prelude.{
  ℕ, ◌+◌, ◌<◌, ◌≡◌, refl, Option, none, some, List, [], ◌∷◌, ◌++◌, count, erase, arith,
}
use os_huji.Blockchain.Block.{Block, Heap, deref, update}
use os_huji.Blockchain.Store.{deref-update}
use os_huji.Blockchain.Invariant.{queued, names}

pub queued_same :
    (k : ℕ) (h h' : Heap) (q : List ℕ)
    → ((a : ℕ) → 0 < count a q → deref h' a ≡ deref h a)
    → queued k h' q ≡ queued k h q
queued_same k h h' [] e = refl
queued_same k h h' (a ∷ q) e = ground (arith, e a, queued_same k h h' q (λ c l. e c (ground arith)))

pub queued-append :
    (k : ℕ) (h : Heap) (p q : List ℕ) → queued k h (p ++ q) ≡ queued k h p + queued k h q
queued-append k h [] q = omega arith
queued-append k h (a ∷ p) q = omega (arith, queued-append k h p q)

pub queued-erase :
    (k a : ℕ) (h : Heap) (q : List ℕ)
    → 0 < count a q
    → queued k h (erase a q) + names k (deref h a) ≡ queued k h q
queued-erase k a h [] l = ground arith
queued-erase k a h (c ∷ q) l = ground (arith, queued-erase k a h q)

-- A write that keeps the index of the block.
pub names-update :
    (k a c : ℕ) (h : Heap) (g : Block → Block)
    → ((b : Block) → (g b).index ≡ b.index)
    → names k (deref (update h a g) c) ≡ names k (deref h c)
names-update k a c h g keep = go (deref h c) refl
  where
    go : (o : Option Block) → deref h c ≡ o → names k (deref (update h a g) c) ≡ names k (deref h c)
    go none e = ground (arith, deref-update h a c g)
    go (some b) e = ground (arith, deref-update h a c g, keep b)

pub queued-update :
    (k a : ℕ) (h : Heap) (g : Block → Block) (q : List ℕ)
    → ((b : Block) → (g b).index ≡ b.index)
    → queued k (update h a g) q ≡ queued k h q
queued-update k a h g [] keep = refl
queued-update k a h g (c ∷ q) keep =
    omega (arith, names-update k a c h g keep, queued-update k a h g q keep)
