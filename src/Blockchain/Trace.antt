-- ===== src/Blockchain/Trace.antt =====
-- Calls of the library of ex3/blockchain.cpp and half rounds of its daemon, in any order.
use os_huji.Prelude.{
  ℕ, ◌≡◌, refl, inl, inr, Option, none, some, List, [], ◌∷◌, All, Bool-cases, Option-cases, arith,
}
use os_huji.Blockchain.Chain.{
  Chain, Env, Work, Outcome, done, fault, spins, ◌>>=◌, daemon_takes, daemon_attaches, exist_block,
}
use os_huji.Blockchain.Library.{Call, refuses, add_block, to_longest, attach_now, was_added}
use os_huji.Blockchain.Father.{Shuffles}
use os_huji.Blockchain.Invariant.{Inv, Keeps}
use os_huji.Blockchain.Adding.{add_block_lowest}
use os_huji.Blockchain.Taking.{start_hash_lem, Takes-Inv, daemon_takes_lem}
use os_huji.Blockchain.Attaching.{daemon_attaches_lem, attached_state-Inv}
use os_huji.Blockchain.Waiting.{search_lem, Inv-AllLive}
use os_huji.Blockchain.Marking.{marked-Inv}
use os_huji.Blockchain.Hurrying.{hurried-Inv}

pub data Act : Type 0 where
  adds : Option (List ℕ) → ℕ → Act
  promotes hurries asks : ℕ → Act
  takes attaches : Act

abbrev pub state : Call → Outcome Chain
state r = do (s, answer) ← r; done s

unfoldable pub act : Env → Act → Chain → Outcome Chain
act env (adds bytes len) s = state (add_block env bytes len s)
act env (promotes k) s = state (to_longest k s)
act env (hurries k) s = state (attach_now k s)
act env (asks k) s = state (was_added k s)
act env takes s = daemon_takes env s
act env attaches s = daemon_attaches s

-- Each act has its own answers of the libraries.
unfoldable pub play : List (Env × Act) → Chain → Outcome Chain
play [] s = done s
play ((env, e) ∷ es) s = do s' ← act env e s; play es s'

module _ (s : Chain) (v : Inv s) where
  adds-Keeps :
      (env : Env) (bytes : Option (List ℕ)) (len : ℕ)
      → Shuffles env
      → Keeps (λ x. x) (state (add_block env bytes len s))
  unfolding add_block
  adds-Keeps env bytes len shuffles = elim (Bool-cases (refuses s)) [
    | inl closed ↦ ground (arith, v)
    | inr open_chain ↦
        let r = add_block_lowest env bytes len s v shuffles open_chain in rw (r.2, add_block) r.3
  ]

  promotes-Keeps : (k : ℕ) → Keeps (λ x. x) (state (to_longest k s))
  unfolding to_longest exist_block
  promotes-Keeps k = elim (search_lem k s.heap s.block_queue (Inv-AllLive s v)) [
    | inl (nobody, fails) ↦ ground (arith, fails 0, v)
    | inr f ↦ ground (arith, f.exists 0, f.at_position, marked-Inv s f.address v f.inside, v)
  ]

  hurries-Keeps : (k : ℕ) → Keeps (λ x. x) (state (attach_now k s))
  unfolding attach_now exist_block
  hurries-Keeps k = elim (search_lem k s.heap s.block_queue (Inv-AllLive s v)) [
    | inl (nobody, fails) ↦ ground (arith, fails 0, v)
    | inr f ↦ ground (arith, f.exists 0, f.pops, hurried-Inv s f.address v f.inside, v)
  ]

  asks-Keeps : (k : ℕ) → Keeps (λ x. x) (state (was_added k s))
  unfolding was_added exist_block
  asks-Keeps k = elim (search_lem k s.heap s.block_queue (Inv-AllLive s v)) [
    | inl (nobody, fails) ↦ ground (arith, fails 0, v)
    | inr f ↦ ground (arith, f.exists 0, v)
  ]

  takes-Keeps : (env : Env) → Shuffles env → Keeps (λ x. x) (daemon_takes env s)
  unfolding daemon_takes
  takes-Keeps env shuffles = go s.in_hand s.block_queue refl refl
    where
      go :
          (o : Option Work) (q : List ℕ)
          → s.in_hand ≡ o
          → s.block_queue ≡ q
          → Keeps (λ x. x) (daemon_takes env s)
      go (some w) q i e = ground (arith, v)
      go none [] i e = ground (arith, v)
      go none (a ∷ q) i e = elim (Bool-cases s.currently_blocked) [
        | inl closing ↦ ground (arith, v)
        | inr open_chain ↦
            let (b, b', h, t) = start_hash_lem env s a q v i e shuffles in
            rw (daemon_takes_lem env s a q v i e open_chain b b' h t, daemon_takes)
              (Takes-Inv env s a q v i e b b' h t)
      ]

  attaches-Keeps : Keeps (λ x. x) (daemon_attaches s)
  unfolding daemon_attaches
  attaches-Keeps = elim (Option-cases s.in_hand) [
    | inl idle ↦ ground (arith, v)
    | inr (w, held) ↦
        let p = (v.hand w held).0 in
        rw (daemon_attaches_lem s v w p.block held p.here, daemon_attaches)
          (attached_state-Inv s v w p.block held p.here)
  ]

act-Keeps : (env : Env) (e : Act) (s : Chain) → Inv s → Shuffles env → Keeps (λ x. x) (act env e s)
unfolding act
act-Keeps env (adds bytes len) s v shuffles = adds-Keeps s v env bytes len shuffles
act-Keeps env (promotes k) s v shuffles = promotes-Keeps s v k
act-Keeps env (hurries k) s v shuffles = hurries-Keeps s v k
act-Keeps env (asks k) s v shuffles = asks-Keeps s v k
act-Keeps env takes s v shuffles = takes-Keeps s v env shuffles
act-Keeps env attaches s v shuffles = attaches-Keeps s v

Keeps-bind :
    (r : Outcome Chain) (k : Chain → Outcome Chain)
    → Keeps (λ x. x) r
    → ((s : Chain) → Inv s → Keeps (λ x. x) (k s))
    → Keeps (λ x. x) (r >>= λ s. k s)
Keeps-bind (done s) k v next = next s v
Keeps-bind fault k v next = v
Keeps-bind spins k v next = v

-- From a state that satisfies the invariant, no sequence of `add_block`, `to_longest`,
-- `attach_now`, `was_added` and half rounds of the daemon, with calls between the halves of a
-- round, meets a deleted block or a missing key; the invariant holds again at its end, so the map
-- is still a tree whose depths are right. A call may answer that it waits, for ever if need be.
-- Every shuffle keeps the elements, and `prune_chain` and the closing of the chain are not among
-- the calls.
pub play-Keeps :
    (es : List (Env × Act)) (s : Chain)
    → Inv s
    → All (λ e. Shuffles e.0) es
    → Keeps (λ x. x) (play es s)
unfolding play
play-Keeps [] s v shuffles = v
play-Keeps ((env, e) ∷ es) s v shuffles =
    Keeps-bind (act env e s) (play es) (act-Keeps env e s v shuffles.0)
      (λ s' v'. play-Keeps es s' v' shuffles.1)
