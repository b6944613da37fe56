-- ===== src/Blockchain/Rounds.antt =====
-- Rounds of the daemon of ex3/blockchain.cpp.
use os_huji.Prelude.{
  ℕ, ◌+◌, ◌<◌, ◌≡◌, ◌≢◌, refl, sym, ◌∙◌, true, false, none, some, List, [], ◌∷◌, count, length,
  arith, lookup,
}
use os_huji.Blockchain.Block.{Block, deref, set_next}
use os_huji.Blockchain.Chain.{Chain, Env, Work, done, daemon_round, daemon_rounds}
use os_huji.Blockchain.Father.{Shuffles}
use os_huji.Blockchain.Invariant.{Inv, unattached}
use os_huji.Blockchain.Taking.{taken, start_hash_lem, daemon_takes_lem, Takes-Inv, IsDeepest}
use os_huji.Blockchain.Attaching.{
  attached_state, daemon_attaches_lem, attached_state-Inv, attached_state-father,
}

-- What a round makes of the front `b` of the queue.
pub record Attaches (env : Env) (s : Chain) (a : ℕ) (q : List ℕ) (b : Block) (s' : Chain)
    : Type 0 where
  pub inv : Inv s'
  pub queue : s'.block_queue ≡ q
  pub idle : s'.in_hand ≡ none
  pub open_chain : s'.currently_blocked ≡ s.currently_blocked
  pub indexes : s'.vec_index ≡ s.vec_index
  pub size : s'.size_counter ≡ s.size_counter + 1
  pub block : Block
  pub father : Block
  pub father_address : ℕ
  pub found : lookup b.index s'.block_map ≡ some a
  pub here : deref s'.heap a ≡ some block
  pub next : block.next ≡ some father_address
  pub there : deref s.heap father_address ≡ some father
  pub father_found : lookup father.index s.block_map ≡ some father_address
  pub father_index : block.father_index ≡ some father.index
  pub depth : block.depth ≡ father.depth + 1
  pub contents : block.contents ≡ b.contents
  pub hashed :
      block.hashed_data
      ≡ some
          (env.generate_hash b.contents b.len_data (env.generate_nonce b.index (some father.index)))
  pub kept : b.attach_to_longest ≡ false → b.father_index ≡ some father.index
  pub deepest : b.attach_to_longest ≡ true → IsDeepest s father.depth

-- Unless the chain is closing or the daemon holds a block, a round takes the front of the queue,
-- hashes it with a nonce for its father, and puts it into the map under its index, pointing to the
-- father, which is in the map and one less deep: the father that `add_block` chose, or, for a block
-- marked by `to_longest`, a deepest block of the map at that time. The block is counted, and the
-- invariant kept.
pub daemon_round-Attaches :
    (env : Env) (s : Chain) (a : ℕ) (q : List ℕ)
    → Inv s
    → Shuffles env
    → s.currently_blocked ≡ false
    → s.in_hand ≡ none
    → s.block_queue ≡ a ∷ q
    → (b : Block) × (s' : Chain) × (deref s.heap a ≡ some b)
      × (daemon_round env s ≡ done s')
      × Attaches env s a q b s'
unfolding daemon_round
daemon_round-Attaches env s a q v shuffles open_chain idle front =
    let (b, b', h, t) = start_hash_lem env s a q v idle front shuffles in
    let s1 : Chain = taken h a q b' s in
    let v1 : Inv s1 = Takes-Inv env s a q v idle front b b' h t in
    let w : Work = record { block = a; father = b'.father_index } in
    let s2 : Chain = attached_state s1 v1 w b' refl t.here in
    let (found, a', father, here, there, father_found, father_index, depth) =
      attached_state-father s1 v1 w b' refl t.here in
    let apart : a' ≢ a = λ i. unattached s v a (ground arith) father.index (ground arith) in
    let stays : deref s.heap a' ≡ some father = sym (t.others a' apart) ∙ there in
    let one_father : t.father.father.depth ≡ father.depth =
      ground (arith, t.father.chosen, t.father.found, t.father.there) in
    (
      b,
      s2,
      t.was,
      ground (
        arith,
        daemon_takes_lem env s a q v idle front open_chain b b' h t,
        daemon_attaches_lem s1 v1 w b' refl t.here,
      ),
      record {
        inv = attached_state-Inv s1 v1 w b' refl t.here;
        queue = refl;
        idle = refl;
        open_chain = refl;
        indexes = refl;
        size = refl;
        block = set_next a' b';
        father = father;
        father_address = a';
        found = ground (arith, found, t.same);
        here = here;
        next = refl;
        there = stays;
        father_found = father_found;
        father_index = father_index;
        depth = depth;
        contents = t.contents;
        hashed = ground (arith, t.hashed, father_index);
        kept = λ e. ground (arith, t.kept e);
        deepest = λ e j c d x y. omega (arith, t.deepest e j c d x y, one_father);
      },
    )

module _ (env : Env) (shuffles : Shuffles env) where
  -- What any number of rounds that empties the queue makes of the state.
  record Drained (s s' : Chain) (n : ℕ) : Type 0 where
    inv : Inv s'
    queue : s'.block_queue ≡ []
    idle : s'.in_hand ≡ none
    indexes : s'.vec_index ≡ s.vec_index
    size : s'.size_counter ≡ s.size_counter + n

  rounds-Drained :
      (q : List ℕ) (s : Chain)
      → Inv s
      → s.currently_blocked ≡ false
      → s.in_hand ≡ none
      → s.block_queue ≡ q
      → (s' : Chain) × (daemon_rounds env (length q) s ≡ done s') × Drained s s' (length q)
  unfolding daemon_rounds
  rounds-Drained [] s v open_chain idle front =
      (s, refl, record { inv = v; queue = front; idle = idle; indexes = refl; size = omega arith })
  rounds-Drained (a ∷ q) s v open_chain idle front =
      let (b, s1, was, ran, w) = daemon_round-Attaches env s a q v shuffles open_chain idle front in
      let (s2, ran', d) = rounds-Drained q s1 w.inv (w.open_chain ∙ open_chain) w.idle w.queue in
      (
        s2,
        ground (arith, ran, ran'),
        record {
          inv = d.inv;
          queue = d.queue;
          idle = d.idle;
          indexes = d.indexes ∙ w.indexes;
          size = omega (arith, d.size, w.size);
        },
      )

-- Unless the chain is closing or the daemon holds a block, as many rounds of the daemon as blocks
-- wait empty the queue and attach every one of them: afterwards each index that was ever given out
-- and not reused is in the map, and the size has grown by the number of blocks.
pub daemon_rounds-drain :
    (env : Env) (s : Chain)
    → Inv s
    → Shuffles env
    → s.currently_blocked ≡ false
    → s.in_hand ≡ none
    → (s' : Chain) × (daemon_rounds env (length s.block_queue) s ≡ done s')
      × Inv s'
      × (s'.block_queue ≡ [])
      × (s'.size_counter ≡ s.size_counter + length s.block_queue)
      × ((k : ℕ) → 0 < count k s.vec_index → lookup k s'.block_map ≢ none)
daemon_rounds-drain env s v shuffles open_chain idle =
    let (s', ran, d) = rounds-Drained env shuffles s.block_queue s v open_chain idle refl in
    (
      s',
      ran,
      d.inv,
      d.queue,
      d.size,
      λ k l e. ground (arith, d.inv.counted k, d.queue, d.idle, d.indexes),
    )
