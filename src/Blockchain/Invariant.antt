-- ===== src/Blockchain/Invariant.antt =====
-- The invariant of the globals of ex3/blockchain.cpp: the blocks of the map form a tree under the
-- genesis block, each waiting block has its father there, and each index belongs to one block.
use os_huji.Prelude.{
  ℕ, ◌+◌, ◌≤◌, ◌<◌, ◌≡◌, ◌≢◌, ◌⊎◌, false, Option, none, some, List, [], ◌∷◌, count, hit, arith,
  Table, lookup, IsSorted, inl, inr, ◌∙◌, Bool-cases, ltb,
}
use os_huji.Blockchain.Block.{Block, Heap, deref}
use os_huji.Blockchain.Chain.{Chain, Work, Outcome, done, fault, spins}
use os_huji.Blockchain.Father.{Named}

-- The block points to a block of the map that is one less deep.
pub record Linked (h : Heap) (m : Table) (b : Block) : Type 0 where
  pub address : ℕ
  pub father : Block
  pub next : b.next ≡ some address
  pub here : deref h address ≡ some father
  pub found : lookup father.index m ≡ some address
  pub depth : b.depth ≡ father.depth + 1

pub record Attached (h : Heap) (m : Table) (k a : ℕ) : Type 0 where
  pub block : Block
  pub here : deref h a ≡ some block
  pub named : block.index ≡ k
  pub clean : block.is_in_longest ≡ false
  pub link : ((k ≡ 0) × (block.next ≡ none) × (block.depth ≡ 0)) ⊎ ((k ≢ 0) × Linked h m block)

-- The father that a waiting block is to have is in the map, one less deep.
pub record Pending (h : Heap) (m : Table) (a : ℕ) : Type 0 where
  pub block : Block
  pub here : deref h a ≡ some block
  pub clean : block.is_in_longest ≡ false
  pub father_id : ℕ
  pub address : ℕ
  pub father : Block
  pub chosen : block.father_index ≡ some father_id
  pub found : lookup father_id m ≡ some address
  pub there : deref h address ≡ some father
  pub depth : block.depth ≡ father.depth + 1

abbrev pub present : Option ℕ → ℕ
present none = 0
present (some a) = 1

abbrev pub names : ℕ → Option Block → ℕ
names k none = 0
names k (some b) = hit k b.index

abbrev pub queued : ℕ → Heap → List ℕ → ℕ
queued k h [] = 0
queued k h (a ∷ q) = names k (deref h a) + queued k h q

abbrev pub handed : ℕ → Heap → Option Work → ℕ
handed k h none = 0
handed k h (some w) = names k (deref h w.block)

-- The blocks with index `k`, wherever they stand.
abbrev pub owners : ℕ → Chain → ℕ
owners k s =
    present (lookup k s.block_map) + queued k s.heap s.block_queue + handed k s.heap s.in_hand

pub record Inv (s : Chain) : Type 0 where
  pub sorted : IsSorted s.block_map
  pub genesis : (a : ℕ) × (lookup 0 s.block_map ≡ some a)
  pub attached : (k a : ℕ) → lookup k s.block_map ≡ some a → Attached s.heap s.block_map k a
  pub pending : (a : ℕ) → 0 < count a s.block_queue → Pending s.heap s.block_map a
  pub hand :
      (w : Work)
      → s.in_hand ≡ some w
      → Pending s.heap s.block_map w.block
        × ((b : Block)
            → deref s.heap w.block ≡ some b
            → (b.father_index ≡ w.father) × (s.is_in_daemon ≡ some b.index))
  pub counted : (k : ℕ) → owners k s ≡ count k s.vec_index
  pub once : (k : ℕ) → count k s.vec_index ≤ 1

-- A step ends without a fault in a state that satisfies the invariant.
abbrev pub Keeps {ℓ} : {A : Type ℓ} → (A → Chain) → Outcome A → Type 0
Keeps f (done x) = Inv (f x)
Keeps f fault = ⊥
Keeps f spins = ⊥

-- The blocks of the map stay where and what they are.
abbrev pub Extends : Heap → Table → Heap → Table → Type 0
Extends h m h' m' =
    (k a : ℕ) → lookup k m ≡ some a → (lookup k m' ≡ some a) × (deref h' a ≡ deref h a)

module _ (h : Heap) (m : Table) (h' : Heap) (m' : Table) (x : Extends h m h' m') where
  Linked-Extends : (b : Block) → Linked h m b → Linked h' m' b
  Linked-Extends b l = record {
    address = l.address;
    father = l.father;
    next = l.next;
    here = ground (arith, x l.father.index l.address l.found, l.here);
    found = (x l.father.index l.address l.found).0;
    depth = l.depth;
  }

  pub Attached-Extends : (k a : ℕ) → lookup k m ≡ some a → Attached h m k a → Attached h' m' k a
  Attached-Extends k a e t = record {
    block = t.block;
    here = (x k a e).1 ∙ t.here;
    named = t.named;
    clean = t.clean;
    link = elim t.link [ inl g ↦ inl g | inr (n, l) ↦ inr (n, Linked-Extends t.block l) ];
  }

  pub Pending-Extends : (a : ℕ) → deref h' a ≡ deref h a → Pending h m a → Pending h' m' a
  Pending-Extends a e p = record {
    block = p.block;
    here = e ∙ p.here;
    clean = p.clean;
    father_id = p.father_id;
    address = p.address;
    father = p.father;
    chosen = p.chosen;
    found = (x p.father_id p.address p.found).0;
    there = (x p.father_id p.address p.found).1 ∙ p.there;
    depth = p.depth;
  }

pub Attached→Named : (h : Heap) (m : Table) (k a : ℕ) → Attached h m k a → Named h k a
Attached→Named h m k a t = record { block = t.block; here = t.here; named = t.named }

pub queued-count :
    (h : Heap) (a : ℕ) (b : Block) (q : List ℕ)
    → deref h a ≡ some b
    → count a q ≤ queued b.index h q
queued-count h a b [] e = omega arith
queued-count h a b (c ∷ q) e = ground (arith, queued-count h a b q e)

-- No address stands in two places.
module _ (s : Chain) (v : Inv s) where
  pub unattached : (a : ℕ) → 0 < count a s.block_queue → (k : ℕ) → lookup k s.block_map ≢ some a
  unattached a h k e =
      let t : Attached s.heap s.block_map k a = v.attached k a e in
      absurd (
        ground (
          arith,
          t.here,
          t.named,
          queued-count s.heap a t.block s.block_queue,
          v.counted k,
          v.once k,
        ))

  pub hand-unattached :
      (w : Work) → s.in_hand ≡ some w → (k : ℕ) → lookup k s.block_map ≢ some w.block
  hand-unattached w h k e =
      let t : Attached s.heap s.block_map k w.block = v.attached k w.block e in
      absurd (ground (arith, t.here, t.named, v.counted k, v.once k))

  pub hand-unqueued : (w : Work) → s.in_hand ≡ some w → count w.block s.block_queue ≡ 0
  hand-unqueued w h =
      let p = (v.hand w h).0 in
      ground (
        arith,
        p.here,
        queued-count s.heap w.block p.block s.block_queue,
        v.counted p.block.index,
        v.once p.block.index,
      )

  pub queued_once : (a : ℕ) → count a s.block_queue ≤ 1
  queued_once a = elim (Bool-cases (ltb 0 (count a s.block_queue))) [
    | inl some_place ↦
        let p = v.pending a (ground arith) in
        ground (
          arith,
          p.here,
          queued-count s.heap a p.block s.block_queue,
          v.counted p.block.index,
          v.once p.block.index,
        )
    | inr no_place ↦ ground arith
  ]
