-- ===== src/Blockchain/Taking.antt =====
-- The daemon of ex3/blockchain.cpp takes a block, and settles on its father.
use os_huji.Prelude.{
  ℕ, ◌+◌, ◌≤◌, ◌<◌, ◌≡◌, ◌≢◌, refl, ◌∙◌, true, false, Option, none, some, List, ◌∷◌, count, arith,
  lookup, inl, inr, Bool-cases,
}
use os_huji.Blockchain.Block.{
  Block, Heap, deref, update, set_depth, set_hashed_data, set_father_index,
}
use os_huji.Blockchain.Chain.{Chain, Env, done, settle_father, start_hash, pop_block, daemon_takes}
use os_huji.Blockchain.Store.{deref-update}
use os_huji.Blockchain.Father.{Shuffles, find_father_deepest}
use os_huji.Blockchain.Invariant.{
  Inv, Pending, Attached-Extends, Pending-Extends, Attached→Named, Extends, unattached, queued_once,
}
use os_huji.Blockchain.Queue.{queued_same}
use os_huji.Blockchain.Adding.{Chosen}

-- The state with the front of the queue in the daemon's hand, and another store.
abbrev pub taken : Heap → ℕ → List ℕ → Block → Chain → Chain
taken h a q b s = record s {
  heap = h;
  block_queue = q;
  is_in_daemon = some b.index;
  in_hand = some (record { block = a; father = b.father_index });
}

module _ (s : Chain) (h : Heap) (a : ℕ) (q : List ℕ) (b b' : Block) (v : Inv s)
    (idle : s.in_hand ≡ none) (front : s.block_queue ≡ a ∷ q) (w : Chosen s b')
    (clean : b'.is_in_longest ≡ false) (was : deref s.heap a ≡ some b) (same : b'.index ≡ b.index)
    (here : deref h a ≡ some b') (others : (c : ℕ) → c ≢ a → deref h c ≡ deref s.heap c) where
  first_one : count a q ≡ 0
  first_one = ground (arith, queued_once s v a)

  stays : Extends s.heap s.block_map h s.block_map
  stays k c e = (e, others c (λ i. unattached s v a (ground arith) k (ground arith)))

  waiting_old : (c : ℕ) → 0 < count c q → deref h c ≡ deref s.heap c
  waiting_old c l = others c (λ i. ground (arith, first_one))

  taken-Inv : Inv (taken h a q b' s)
  taken-Inv = record {
    sorted = v.sorted;
    genesis = v.genesis;
    attached =
        λ k c e. Attached-Extends s.heap s.block_map h s.block_map stays k c e (v.attached k c e);
    pending = λ c l.
        Pending-Extends s.heap s.block_map h s.block_map stays c (waiting_old c l)
          (v.pending c (ground arith));
    hand = λ j e.
        let at_a : j.block ≡ a = ground arith in
        let now : deref h j.block ≡ some b' = rw at_a here in
        (
          record {
            block = b';
            here = now;
            clean = clean;
            father_id = w.father_id;
            address = w.address;
            father = w.father;
            chosen = w.chosen;
            found = w.found;
            there = (stays w.father_id w.address w.found).1 ∙ w.there;
            depth = w.depth;
          },
          λ c f. ground arith,
        );
    counted = λ k. ground (arith, v.counted k, queued_same k s.heap h q waiting_old);
    once = v.once;
  }

-- No block of the map is deeper.
abbrev pub IsDeepest : Chain → ℕ → Type 0
IsDeepest s d =
    (j c : ℕ) (b : Block) → lookup j s.block_map ≡ some c → deref s.heap c ≡ some b → b.depth ≤ d

-- What the daemon makes of the front `b` of the queue: it is hashed with the father that is settled
-- on.
pub record Takes (env : Env) (s : Chain) (a : ℕ) (q : List ℕ) (b b' : Block) (h : Heap)
    : Type 0 where
  pub was : deref s.heap a ≡ some b
  pub ran : start_hash env a (record s { block_queue = q }) ≡ done (taken h a q b' s)
  pub here : deref h a ≡ some b'
  pub others : (c : ℕ) → c ≢ a → deref h c ≡ deref s.heap c
  pub father : Chosen s b'
  pub same : b'.index ≡ b.index
  pub clean : b'.is_in_longest ≡ false
  pub contents : b'.contents ≡ b.contents
  pub hashed :
      b'.hashed_data
      ≡ some (env.generate_hash b.contents b.len_data (env.generate_nonce b.index b'.father_index))
  pub kept : b.attach_to_longest ≡ false → (b'.father_index ≡ b.father_index) × (b'.depth ≡ b.depth)
  pub deepest : b.attach_to_longest ≡ true → IsDeepest s father.father.depth

abbrev finished : Env → Block → Option ℕ → ℕ → Block
finished env b f d = record b {
  depth = d;
  father_index = f;
  hashed_data = some (env.generate_hash b.contents b.len_data (env.generate_nonce b.index f));
}

abbrev hash_of : Env → Block → Option ℕ → List ℕ
hash_of env b f = env.generate_hash b.contents b.len_data (env.generate_nonce b.index f)

module _ (env : Env) (s : Chain) (a : ℕ) (q : List ℕ) (v : Inv s) (idle : s.in_hand ≡ none)
    (front : s.block_queue ≡ a ∷ q) where
  p : Pending s.heap s.block_map a
  p = v.pending a (ground arith)

  start_hash-plain :
      p.block.attach_to_longest ≡ false → (b' : Block) × (h : Heap) × Takes env s a q p.block b' h
  unfolding start_hash settle_father
  start_hash-plain plain =
      let b = p.block in
      let hash = hash_of env b b.father_index in
      let h1 = update s.heap a (set_hashed_data hash) in
      (
        finished env b b.father_index b.depth,
        update h1 a (set_father_index b.father_index),
        record {
          was = p.here;
          ran = ground (arith, p.here);
          here = ground (
            arith,
            p.here,
            deref-update s.heap a a (set_hashed_data hash),
            deref-update h1 a a (set_father_index b.father_index),
          );
          others = λ c n. ground (
            arith,
            deref-update s.heap a c (set_hashed_data hash),
            deref-update h1 a c (set_father_index b.father_index),
          );
          father = record {
            father_id = p.father_id;
            address = p.address;
            father = p.father;
            chosen = p.chosen;
            found = p.found;
            there = p.there;
            depth = p.depth;
          };
          same = refl;
          clean = p.clean;
          contents = refl;
          hashed = refl;
          kept = λ e. (refl, refl);
          deepest = λ e. absurd (ground arith);
        },
      )

  start_hash-longest :
      Shuffles env
      → p.block.attach_to_longest ≡ true
      → (b' : Block) × (h : Heap) × Takes env s a q p.block b' h
  unfolding start_hash settle_father
  start_hash-longest shuffles flag =
      let b = p.block in
      let s1 : Chain = record s { block_queue = q; is_in_daemon = some b.index } in
      let (f, fa, father, ran, found, there, named, deepest) =
        find_father_deepest env s1 0 v.genesis.0 shuffles v.sorted
          (λ k c e. Attached→Named s.heap s.block_map k c (v.attached k c e)) v.genesis.1 in
      let d = father.depth + 1 in
      let hash = hash_of env b (some f) in
      let h0 = update s.heap a (set_depth d) in
      let h1 = update h0 a (set_hashed_data hash) in
      (
        finished env b (some f) d,
        update h1 a (set_father_index (some f)),
        record {
          was = p.here;
          ran = ground (arith, p.here, ran, found, there);
          here = ground (
            arith,
            p.here,
            deref-update s.heap a a (set_depth d),
            deref-update h0 a a (set_hashed_data hash),
            deref-update h1 a a (set_father_index (some f)),
          );
          others = λ c n. ground (
            arith,
            deref-update s.heap a c (set_depth d),
            deref-update h0 a c (set_hashed_data hash),
            deref-update h1 a c (set_father_index (some f)),
          );
          father = record {
            father_id = f;
            address = fa;
            father = father;
            chosen = refl;
            found = found;
            there = there;
            depth = refl;
          };
          same = refl;
          clean = p.clean;
          contents = refl;
          hashed = refl;
          kept = λ e. absurd (ground arith);
          deepest = λ e. deepest;
        },
      )

  pub start_hash_lem :
      Shuffles env → (b : Block) × (b' : Block) × (h : Heap) × Takes env s a q b b' h
  start_hash_lem shuffles = elim (Bool-cases p.block.attach_to_longest) [
    | inl flag ↦ let (b', h, t) = start_hash-longest shuffles flag in (p.block, b', h, t)
    | inr plain ↦ let (b', h, t) = start_hash-plain plain in (p.block, b', h, t)
  ]

  pub Takes-Inv : (b b' : Block) (h : Heap) → Takes env s a q b b' h → Inv (taken h a q b' s)
  Takes-Inv b b' h t =
      taken-Inv s h a q b b' v idle front t.father t.clean t.was t.same t.here t.others

  pub daemon_takes_lem :
      s.currently_blocked ≡ false
      → (b b' : Block) (h : Heap) → Takes env s a q b b' h
      → daemon_takes env s ≡ done (taken h a q b' s)
  unfolding daemon_takes pop_block
  daemon_takes_lem open_chain b b' h t = ground (arith, t.was, t.ran)
