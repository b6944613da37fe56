-- ===== src/Blockchain/Marking.antt =====
-- `to_longest` of ex3/blockchain.cpp marks a waiting block.
use os_huji.Prelude.{
  ℕ, ◌<◌, ◌≡◌, ◌≢◌, refl, sym, ◌∙◌, inl, inr, true, none, some, count, success, ◌==◌, Bool-cases,
  Option-cases, arith, lookup,
}
use os_huji.Blockchain.Block.{Block, deref, update, set_attach_to_longest}
use os_huji.Blockchain.Chain.{Chain, done, exist_block}
use os_huji.Blockchain.Library.{returns, found, unsuccessful, to_longest}
use os_huji.Blockchain.Store.{deref-update}
use os_huji.Blockchain.Invariant.{
  Inv, Pending, Attached-Extends, Pending-Extends, Extends, queued, handed, unattached,
  hand-unqueued,
}
use os_huji.Blockchain.Queue.{queued-update}
use os_huji.Blockchain.Waiting.{search_lem, Inv-AllLive}
use os_huji.Blockchain.Answers.{Finds-owner}

-- The state with a waiting block marked.
abbrev pub marked : ℕ → Chain → Chain
marked a s = record s { heap = update s.heap a (set_attach_to_longest true) }

module _ (s : Chain) (a : ℕ) (v : Inv s) (waits : 0 < count a s.block_queue) where
  others : (c : ℕ) → c ≢ a → deref (marked a s).heap c ≡ deref s.heap c
  others c n = ground (arith, deref-update s.heap a c (set_attach_to_longest true))

  stays : Extends s.heap s.block_map (marked a s).heap s.block_map
  stays k c e = (e, others c (λ i. unattached s v a waits k (ground arith)))

  handed_same : (k : ℕ) → handed k (marked a s).heap s.in_hand ≡ handed k s.heap s.in_hand
  handed_same k = elim (Option-cases s.in_hand) [
    | inl idle ↦ ground arith
    | inr (w, e) ↦ ground (arith, others w.block (λ i. ground (arith, hand-unqueued s v w e)))
  ]

  marked-pending : (c : ℕ) → 0 < count c s.block_queue → Pending (marked a s).heap s.block_map c
  marked-pending c l = elim (Bool-cases (c == a)) [
    | inl same ↦
        let p = v.pending c l in
        record {
          block = set_attach_to_longest true p.block;
          here = ground (arith, p.here, deref-update s.heap a c (set_attach_to_longest true));
          clean = p.clean;
          father_id = p.father_id;
          address = p.address;
          father = p.father;
          chosen = p.chosen;
          found = p.found;
          there = (stays p.father_id p.address p.found).1 ∙ p.there;
          depth = p.depth;
        }
    | inr other ↦
        Pending-Extends s.heap s.block_map (marked a s).heap s.block_map stays c
          (others c (ground arith)) (v.pending c l)
  ]

  pub marked-Inv : Inv (marked a s)
  marked-Inv = record {
    sorted = v.sorted;
    genesis = v.genesis;
    attached = λ k c e.
        Attached-Extends s.heap s.block_map (marked a s).heap s.block_map stays k c e
          (v.attached k c e);
    pending = marked-pending;
    hand = λ w e.
        let apart : deref (marked a s).heap w.block ≡ deref s.heap w.block =
          others w.block (λ i. ground (arith, hand-unqueued s v w e)) in
        (
          Pending-Extends s.heap s.block_map (marked a s).heap s.block_map stays w.block apart
              (v.hand w e).0,
          λ b f. (v.hand w e).1 b (sym apart ∙ f),
        );
    counted = λ k. ground (
      arith,
      v.counted k,
      handed_same k,
      queued-update k a s.heap (set_attach_to_longest true) s.block_queue (λ b. refl),
    );
    once = v.once;
  }

-- On an open chain `to_longest` returns FOUND for a block of the map; it marks a waiting block,
-- and that one only, and returns SUCCESS; and for any other index, that of the block in the
-- daemon's hand included, it returns UNSUCCESSFUL. The invariant is kept.
pub to_longest_marks :
    (k : ℕ) (s : Chain)
    → Inv s
    → s.is_initiated ≡ true
    → ((a : ℕ) → lookup k s.block_map ≡ some a → to_longest k s ≡ done (s, returns found))
      × (0 < queued k s.heap s.block_queue
          → (a : ℕ) × (b : Block) × (to_longest k s ≡ done (marked a s, returns success))
            × (0 < count a s.block_queue)
            × (deref s.heap a ≡ some b)
            × (b.index ≡ k)
            × (deref (marked a s).heap a ≡ some (set_attach_to_longest true b))
            × ((c : ℕ) → c ≢ a → deref (marked a s).heap c ≡ deref s.heap c)
            × Inv (marked a s))
      × (lookup k s.block_map ≡ none
          → queued k s.heap s.block_queue ≡ 0
          → to_longest k s ≡ done (s, returns unsuccessful))
unfolding to_longest exist_block
to_longest_marks k s v started = (
  λ a e. ground arith,
  λ l. elim (search_lem k s.heap s.block_queue (Inv-AllLive s v)) [
    | inl (nobody, fails) ↦ absurd (omega arith)
    | inr f ↦ (
      f.address,
      f.block,
      ground (arith, f.exists 0, f.at_position, Finds-owner k s v f),
      f.inside,
      f.here,
      f.named,
      ground (arith, f.here, deref-update s.heap f.address f.address (set_attach_to_longest true)),
      others s f.address v f.inside,
      marked-Inv s f.address v f.inside,
    )
  ],
  λ e n. elim (search_lem k s.heap s.block_queue (Inv-AllLive s v)) [
    | inl (nobody, fails) ↦ ground (arith, fails 0)
    | inr f ↦ absurd (ground (arith, Finds-owner k s v f))
  ],
)
