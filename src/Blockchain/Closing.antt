-- ===== src/Blockchain/Closing.antt =====
-- The closing of the chain in ex3/blockchain.cpp: the thread ends, prints every waiting block, and
-- leaves a state that `init_blockchain` accepts.
use os_huji.Prelude.{
  ℕ, ◌<◌, ◌≡◌, ◌≢◌, refl, true, false, Option, none, some, List, [], ◌∷◌, map, count, length, arith,
}
use os_huji.Blockchain.Block.{Block, Heap, deref, set_next}
use os_huji.Blockchain.Chain.{Chain, Env, Work, done, pop_block}
use os_huji.Blockchain.Close.{
  Line, add_and_hash, close_block, close_queue, close_chain_thread, close_chain, return_on_close,
  free_blocks,
}
use os_huji.Blockchain.Store.{deref-update}
use os_huji.Blockchain.Father.{Shuffles}
use os_huji.Blockchain.Invariant.{Inv, queued_once}
use os_huji.Blockchain.Starting.{Shut}
use os_huji.Blockchain.Taking.{taken, start_hash_lem, Takes-Inv}
use os_huji.Blockchain.Attaching.{held_block, attached_state, attach_block_lem, attached_state-Inv}

abbrev pub index_of : Option Block → ℕ
index_of none = 0
index_of (some b) = b.index

-- The indexes of the waiting blocks, in order.
abbrev pub waiting : Heap → List ℕ → List ℕ
waiting h q = map (λ a. index_of (deref h a)) q

waiting_same :
    (h h' : Heap) (q : List ℕ)
    → ((a : ℕ) → 0 < count a q → deref h' a ≡ deref h a)
    → waiting h' q ≡ waiting h q
waiting_same h h' [] e = refl
waiting_same h h' (a ∷ q) e = ground (arith, e a, waiting_same h h' q (λ c l. e c (ground arith)))

Inv-uncounted : (s : Chain) (n : ℕ) → Inv s → Inv (record s { size_counter = n })
Inv-uncounted s n v = record {
  sorted = v.sorted;
  genesis = v.genesis;
  attached = v.attached;
  pending = v.pending;
  hand = v.hand;
  counted = v.counted;
  once = v.once;
}

Inv-blocked : (s : Chain) → Inv s → Inv (record s { currently_blocked = true })
Inv-blocked s v = record {
  sorted = v.sorted;
  genesis = v.genesis;
  attached = v.attached;
  pending = v.pending;
  hand = v.hand;
  counted = v.counted;
  once = v.once;
}

-- A round of the closing thread.
record Closes (env : Env) (s : Chain) (a : ℕ) (q : List ℕ) (s' : Chain) (line : Line) : Type 0 where
  ran : close_block env a s ≡ done (s', line)
  inv : Inv s'
  queue : s'.block_queue ≡ q
  idle : s'.in_hand ≡ none
  index : line.index ≡ index_of (deref s.heap a)
  others : (c : ℕ) → c ≢ a → deref s'.heap c ≡ deref s.heap c

module _ (env : Env) (shuffles : Shuffles env) where
  close_block-Closes :
      (s : Chain) (a : ℕ) (q : List ℕ)
      → Inv s
      → s.in_hand ≡ none
      → s.block_queue ≡ a ∷ q
      → (s' : Chain) × (line : Line) × Closes env s a q s' line
  unfolding close_block add_and_hash pop_block
  close_block-Closes s a q v idle front =
      let (b, b', h, t) = start_hash_lem env s a q v idle front shuffles in
      let s1 : Chain = taken h a q b' s in
      let v1 : Inv s1 = Takes-Inv env s a q v idle front b b' h t in
      let w : Work = record { block = a; father = b'.father_index } in
      let fa = (held_block s1 v1 w b' refl t.here).address in
      let s2 : Chain = record (attached_state s1 v1 w b' refl t.here) {
        size_counter = s.size_counter;
      } in
      let hash =
        env.generate_hash b.contents b.len_data (env.generate_nonce b.index b'.father_index) in
      (
        s2,
        record { hash = hash; index = b'.index },
        record {
          ran = ground (
            arith,
            t.was,
            t.ran,
            t.hashed,
            attach_block_lem s1 v1 w b' refl t.here,
            deref-update h a a (set_next fa),
            t.here,
          );
          inv =
              Inv-uncounted (attached_state s1 v1 w b' refl t.here) s.size_counter
                (attached_state-Inv s1 v1 w b' refl t.here);
          queue = refl;
          idle = refl;
          index = ground (arith, t.was, t.same);
          others = λ c n. ground (arith, deref-update h a c (set_next fa), t.others c n);
        },
      )

  close_queue_lem :
      (q : List ℕ) (s : Chain)
      → Inv s
      → s.in_hand ≡ none
      → s.block_queue ≡ q
      → (s' : Chain) × (lines : List Line) × (close_queue env (length q) s ≡ done (s', lines))
        × (s'.block_queue ≡ [])
        × (s'.in_hand ≡ none)
        × (map (λ l. l.index) lines ≡ waiting s.heap q)
  unfolding close_queue
  close_queue_lem [] s v idle front = (s, [], ground arith, front, idle, refl)
  close_queue_lem (a ∷ q) s v idle front =
      let (s1, line, w) = close_block-Closes s a q v idle front in
      let (s2, lines, ran, empty, idle2, indexes) = close_queue_lem q s1 w.inv w.idle w.queue in
      let first_one : count a q ≡ 0 = ground (arith, queued_once s v a) in
      (
        s2,
        line ∷ lines,
        ground (arith, w.ran, ran),
        empty,
        idle2,
        ground (
          arith,
          w.index,
          indexes,
          waiting_same s.heap s1.heap q (λ c l. w.others c (λ e. ground (arith, first_one))),
        ),
      )

-- While the daemon holds no block, an open chain that is closed makes `return_on_close` wait for
-- the closing thread, which ends: it prints the waiting blocks in their order, empties the map and
-- the queue, unlocks `s_mutex`, and leaves a state from which `init_blockchain` opens a new chain
-- with a count of 0.
pub close_chain-Shut :
    (env : Env) (s : Chain)
    → Inv s
    → Shuffles env
    → s.is_initiated ≡ true
    → s.in_hand ≡ none
    → (return_on_close (close_chain s) ≡ none)
      × (s' : Chain) × (lines : List Line) × (close_chain_thread env (close_chain s)
          ≡ done (s', lines))
      × (map (λ l. l.index) lines ≡ waiting s.heap s.block_queue)
      × (s'.size_counter ≡ 0)
      × Shut s'
unfolding close_chain close_chain_thread return_on_close
close_chain-Shut env s v shuffles started idle =
    let s1 : Chain = record s { currently_blocked = true } in
    let (s2, lines, ran, empty, idle2, indexes) =
      close_queue_lem env shuffles s.block_queue s1 (Inv-blocked s v) idle refl in
    (
      ground arith,
      record s2 {
        heap = free_blocks s2.block_map s2.heap;
        block_map = [];
        vec_index = [];
        size_counter = 0;
        currently_blocked = false;
        is_initiated = false;
        s_mutex = false;
      },
      lines,
      ground (arith, ran),
      indexes,
      refl,
      record {
        block_map = refl;
        block_queue = empty;
        vec_index = refl;
        in_hand = idle2;
        currently_blocked = refl;
        is_initiated = refl;
        s_mutex = refl;
      },
    )
