-- ===== src/Blockchain/Attaching.antt =====
-- The daemon of ex3/blockchain.cpp attaches the block in its hand.
use os_huji.Prelude.{
  ℕ, ◌+◌, ◌≡◌, ◌≢◌, refl, ◌∙◌, none, some, ◌==◌, arith, Table, lookup, insert, lookup-insert,
  insert-IsFrom, inl, inr, Bool-cases,
}
use os_huji.Blockchain.Block.{Block, Heap, deref, update, set_next}
use os_huji.Blockchain.Chain.{Chain, Work, done, attach_block, daemon_attaches}
use os_huji.Blockchain.Store.{deref-update}
use os_huji.Blockchain.Invariant.{
  Inv, Attached, Pending, Attached-Extends, Pending-Extends, Extends, hand-unattached,
  hand-unqueued,
}
use os_huji.Blockchain.Queue.{queued-update}

-- The state with the block in hand in the map, next to the father at `fa`.
abbrev pub attached_at : ℕ → Block → ℕ → Chain → Chain
attached_at a b fa s = record s {
  heap = update s.heap a (set_next fa);
  block_map = insert b.index a s.block_map;
  in_hand = none;
  size_counter = s.size_counter + 1;
}

module _ (s : Chain) (v : Inv s) (w : Work) (b : Block) (held : s.in_hand ≡ some w)
    (here : deref s.heap w.block ≡ some b) where
  abbrev pub held_block : Pending s.heap s.block_map w.block
  held_block = (v.hand w held).0

  same : held_block.block ≡ b
  same = ground (arith, held_block.here)

  absent : lookup b.index s.block_map ≡ none
  absent = ground (arith, v.counted b.index, v.once b.index)

  not_genesis : b.index ≢ 0
  not_genesis = ground (arith, v.genesis.1, absent)

  abbrev pub attached_state : Chain
  attached_state = attached_at w.block b held_block.address s

  pub attach_block_lem :
      attach_block w s ≡ done (record attached_state { size_counter = s.size_counter })
  unfolding attach_block
  attach_block_lem =
      ground (arith, (v.hand w held).1 b here, same, held_block.chosen, held_block.found)

  pub daemon_attaches_lem : daemon_attaches s ≡ done attached_state
  unfolding daemon_attaches attach_block
  daemon_attaches_lem =
      ground (arith, (v.hand w held).1 b here, same, held_block.chosen, held_block.found)

  abbrev h' : Heap
  h' = update s.heap w.block (set_next held_block.address)

  abbrev m' : Table
  m' = insert b.index w.block s.block_map

  others : (c : ℕ) → c ≢ w.block → deref h' c ≡ deref s.heap c
  others c n = ground (arith, deref-update s.heap w.block c (set_next held_block.address))

  stays : Extends s.heap s.block_map h' m'
  stays k c e = (
    ground (arith, lookup-insert b.index w.block k s.block_map absent, absent),
    others c (λ i. hand-unattached s v w held k (ground arith)),
  )

  now : deref h' w.block ≡ some (set_next held_block.address b)
  now = ground (arith, deref-update s.heap w.block w.block (set_next held_block.address))

  new_one : Attached h' m' b.index w.block
  new_one =
      let father_index : held_block.father.index ≡ held_block.father_id =
        let t = v.attached held_block.father_id held_block.address held_block.found in
        ground (arith, t.here, t.named, held_block.there) in
      record {
        block = set_next held_block.address b;
        here = now;
        named = refl;
        clean = ground (arith, held_block.clean, same);
        link = inr (
          not_genesis,
          record {
            address = held_block.address;
            father = held_block.father;
            next = refl;
            here =
                (stays held_block.father_id held_block.address held_block.found).1
                ∙ held_block.there;
            found =
                ground (arith, (stays held_block.father_id held_block.address held_block.found).0);
            depth = ground (arith, held_block.depth, same);
          },
        );
      }

  Attached-all : (k c : ℕ) → lookup k m' ≡ some c → Attached h' m' k c
  Attached-all k c e = elim (Bool-cases (k == b.index)) [
    | inl new ↦
        let at_k : k ≡ b.index = ground arith in
        let at_c : c ≡ w.block =
          ground (arith, lookup-insert b.index w.block k s.block_map absent) in
        rw (at_k, at_c) new_one
    | inr old ↦
        let e' : lookup k s.block_map ≡ some c =
          ground (arith, lookup-insert b.index w.block k s.block_map absent) in
        Attached-Extends s.heap s.block_map h' m' stays k c e' (v.attached k c e')
  ]

  pub attached_state-Inv : Inv attached_state
  attached_state-Inv = record {
    sorted = insert-IsFrom 0 b.index w.block s.block_map (omega arith) v.sorted;
    genesis = (v.genesis.0, (stays 0 v.genesis.0 v.genesis.1).0);
    attached = Attached-all;
    pending = λ c l.
        Pending-Extends s.heap s.block_map h' m' stays c
          (others c (λ i. ground (arith, hand-unqueued s v w held))) (v.pending c l);
    hand = λ j e. absurd (ground arith);
    counted = λ k. ground (
      arith,
      v.counted k,
      absent,
      lookup-insert b.index w.block k s.block_map absent,
      queued-update k w.block s.heap (set_next held_block.address) s.block_queue (λ d. refl),
    );
    once = v.once;
  }

  -- The entry and the father of the attached block.
  pub attached_state-father :
      (lookup b.index attached_state.block_map ≡ some w.block)
      × (a' : ℕ) × (father : Block) × (deref attached_state.heap w.block ≡ some (set_next a' b))
      × (deref s.heap a' ≡ some father)
      × (lookup father.index s.block_map ≡ some a')
      × (b.father_index ≡ some father.index)
      × (b.depth ≡ father.depth + 1)
  attached_state-father =
      let l = v.attached held_block.father_id held_block.address held_block.found in
      (
        ground (arith, lookup-insert b.index w.block b.index s.block_map absent),
        held_block.address,
        held_block.father,
        now,
        held_block.there,
        ground (arith, l.here, l.named, held_block.there, held_block.found),
        ground (arith, l.here, l.named, held_block.there, held_block.chosen, same),
        ground (arith, held_block.depth, same),
      )
