-- ===== src/Blockchain/Adding.antt =====
-- `add_block` of ex3/blockchain.cpp keeps the invariant, and what its caller sees.
use os_huji.Prelude.{
  ℕ, ◌+◌, ◌≤◌, ◌<◌, ◌≡◌, refl, sym, ◌∙◌, false, Option, none, some, List, [], ◌∷◌, ◌++◌, length,
  count, count-append, sort, pos, ◌==◌, arith, lookup, inl, inr, Bool-cases,
}
use os_huji.Blockchain.Block.{Block, deref, new_block}
use os_huji.Blockchain.Chain.{Chain, Env, Work, done}
use os_huji.Blockchain.Library.{returns, refuses, add_block, find_min_idx}
use os_huji.Blockchain.Store.{deref-alloc, deref-length}
use os_huji.Blockchain.Father.{Shuffles, find_father_deepest}
use os_huji.Blockchain.Indexes.{find_min_idx_lowest}
use os_huji.Blockchain.Invariant.{
  Inv, Pending, Attached-Extends, Pending-Extends, Attached→Named, Extends, handed,
}
use os_huji.Blockchain.Queue.{queued_same, queued-append}

-- The state with one more waiting block.
abbrev pub added : Block → Chain → Chain
added b s = record s {
  heap = s.heap ++ some b ∷ [];
  vec_index = sort s.vec_index ++ b.index ∷ [];
  block_queue = s.block_queue ++ length s.heap ∷ [];
}

-- The new block names a father of the map that is one less deep.
pub record Chosen (s : Chain) (b : Block) : Type 0 where
  pub father_id : ℕ
  pub address : ℕ
  pub father : Block
  pub chosen : b.father_index ≡ some father_id
  pub found : lookup father_id s.block_map ≡ some address
  pub there : deref s.heap address ≡ some father
  pub depth : b.depth ≡ father.depth + 1

module _ (s : Chain) (b : Block) (v : Inv s) (w : Chosen s b) (clean : b.is_in_longest ≡ false)
    (fresh : count b.index s.vec_index ≡ 0)
    (sorted : (k : ℕ) → count k (sort s.vec_index) ≡ count k s.vec_index) where
  old : (c : ℕ) (d : Block) → deref s.heap c ≡ some d → deref (added b s).heap c ≡ deref s.heap c
  old c d e = ground (arith, deref-alloc s.heap b c, deref-length s.heap)

  stays : Extends s.heap s.block_map (added b s).heap s.block_map
  stays k a e = let t = v.attached k a e in (e, old a t.block t.here)

  waiting_old : (a : ℕ) → 0 < count a s.block_queue → deref (added b s).heap a ≡ deref s.heap a
  waiting_old a l = let p = v.pending a l in old a p.block p.here

  added-pending :
      (a : ℕ) → 0 < count a (added b s).block_queue → Pending (added b s).heap s.block_map a
  added-pending a l = elim (Bool-cases (a == length s.heap)) [
    | inl new ↦ record {
      block = b;
      here = ground (arith, deref-alloc s.heap b a);
      clean = clean;
      father_id = w.father_id;
      address = w.address;
      father = w.father;
      chosen = w.chosen;
      found = w.found;
      there = old w.address w.father w.there ∙ w.there;
      depth = w.depth;
    }
    | inr before ↦
        let l' : 0 < count a s.block_queue =
          ground (arith, count-append a s.block_queue (length s.heap ∷ [])) in
        Pending-Extends s.heap s.block_map (added b s).heap s.block_map stays a (waiting_old a l')
          (v.pending a l')
  ]

  handed_old : (k : ℕ) → handed k (added b s).heap s.in_hand ≡ handed k s.heap s.in_hand
  handed_old k = go s.in_hand refl
    where
      go :
          (o : Option Work)
          → s.in_hand ≡ o
          → handed k (added b s).heap s.in_hand ≡ handed k s.heap s.in_hand
      go none e = ground arith
      go (some j) e = let p = (v.hand j e).0 in ground (arith, old j.block p.block p.here)

  pub added-Inv : Inv (added b s)
  added-Inv = record {
    sorted = v.sorted;
    genesis = v.genesis;
    attached = λ k a e.
        Attached-Extends s.heap s.block_map (added b s).heap s.block_map stays k a e
          (v.attached k a e);
    pending = added-pending;
    hand = λ j e.
        let (p, same) = v.hand j e in
        (
          Pending-Extends s.heap s.block_map (added b s).heap s.block_map stays j.block
              (old j.block p.block p.here) p,
          λ c f. same c (sym (old j.block p.block p.here) ∙ f),
        );
    counted = λ k. ground (
      arith,
      v.counted k,
      sorted k,
      handed_old k,
      count-append k (sort s.vec_index) (b.index ∷ []),
      queued-append k (added b s).heap s.block_queue (length s.heap ∷ []),
      queued_same k s.heap (added b s).heap s.block_queue waiting_old,
      deref-alloc s.heap b (length s.heap),
    );
    once = λ k.
        ground (arith, v.once k, sorted k, fresh, count-append k (sort s.vec_index) (b.index ∷ []));
  }

-- While the chain takes calls, `add_block` returns an index that no block has, every smaller one
-- being taken. The new block waits at the end of the queue, with a copy of the data, one deeper
-- than its father, which is a deepest block of the map. The map is as before, and the invariant is
-- kept.
pub add_block_lowest :
    (env : Env) (bytes : Option (List ℕ)) (len : ℕ) (s : Chain)
    → Inv s
    → Shuffles env
    → refuses s ≡ false
    → (idx : ℕ) × (s' : Chain) × (add_block env bytes len s ≡ done (s', returns (pos idx)))
      × Inv s'
      × (count idx s.vec_index ≡ 0)
      × ((k : ℕ) → k < idx → 0 < count k s.vec_index)
      × (s'.block_map ≡ s.block_map)
      × (s'.block_queue ≡ s.block_queue ++ length s.heap ∷ [])
      × (f : ℕ) × (a : ℕ) × (father : Block) × (lookup f s.block_map ≡ some a)
      × (deref s.heap a ≡ some father)
      × ((j c : ℕ) (d : Block)
          → lookup j s.block_map ≡ some c
          → deref s.heap c ≡ some d
          → d.depth ≤ father.depth)
      × (deref s'.heap (length s.heap) ≡ some (new_block bytes idx (some f) (father.depth + 1) len))
unfolding add_block new_block find_min_idx
add_block_lowest env bytes len s v shuffles open_chain =
    let (free, taken, same, sorted) = find_min_idx_lowest s v.once in
    let idx = (find_min_idx s).0 in
    let s1 : Chain = record s { vec_index = sort s.vec_index } in
    let (f, a, father, ran, found, there, named, deepest) =
      find_father_deepest env s1 0 v.genesis.0 shuffles v.sorted
        (λ k c e. Attached→Named s.heap s.block_map k c (v.attached k c e)) v.genesis.1 in
    let b : Block = new_block bytes idx (some f) (father.depth + 1) len in
    (
      idx,
      added b s,
      ground (arith, ran, found, there),
      added-Inv s b v
          (record {
            father_id = f;
            address = a;
            father = father;
            chosen = refl;
            found = found;
            there = there;
            depth = refl;
          })
          refl free sorted,
      free,
      taken,
      refl,
      refl,
      f,
      a,
      father,
      found,
      there,
      deepest,
      ground (arith, deref-alloc s.heap b (length s.heap)),
    )
