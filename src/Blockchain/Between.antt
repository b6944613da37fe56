-- ===== src/Blockchain/Between.antt =====
-- What holds after any number of rounds of the daemon of ex3/blockchain.cpp.
use os_huji.Prelude.{ℕ, zero, suc, ◌≡◌, refl, ◌∙◌, false, none, List, [], ◌∷◌, arith, subst}
use os_huji.Blockchain.Chain.{
  Chain, Env, done, daemon_takes, daemon_attaches, daemon_round, daemon_rounds,
}
use os_huji.Blockchain.Father.{Shuffles}
use os_huji.Blockchain.Invariant.{Inv}
use os_huji.Blockchain.Rounds.{daemon_round-Attaches}

-- A state between two rounds, with the indexes of another one.
pub record Between (s s1 : Chain) : Type 0 where
  pub inv : Inv s1
  pub open_chain : s1.currently_blocked ≡ false
  pub idle : s1.in_hand ≡ none
  pub indexes : s1.vec_index ≡ s.vec_index

daemon_round-Between :
    (env : Env) (s s1 : Chain)
    → Shuffles env
    → Between s s1
    → (s2 : Chain) × (daemon_round env s1 ≡ done s2) × Between s s2
unfolding daemon_round daemon_takes daemon_attaches
daemon_round-Between env s s1 shuffles w = go s1.block_queue refl
  where
    go :
        (q : List ℕ)
        → s1.block_queue ≡ q
        → (s2 : Chain) × (daemon_round env s1 ≡ done s2) × Between s s2
    go [] e = (s1, ground (arith, w.open_chain, w.idle), w)
    go (a ∷ q) e =
        let (b, s2, was, ran, r) =
          daemon_round-Attaches env s1 a q w.inv shuffles w.open_chain w.idle e in
        (
          s2,
          ran,
          record {
            inv = r.inv;
            open_chain = r.open_chain ∙ w.open_chain;
            idle = r.idle;
            indexes = r.indexes ∙ w.indexes;
          },
        )

-- Rounds neither give out indexes nor take them back.
pub daemon_rounds-Between :
    (env : Env) (n : ℕ) (s s1 s2 : Chain)
    → Shuffles env
    → Between s s1
    → daemon_rounds env n s1 ≡ done s2
    → Between s s2
unfolding daemon_rounds
daemon_rounds-Between env zero s s1 s2 shuffles w ran =
    let same : s1 ≡ s2 = cc in subst (Between s) same w
daemon_rounds-Between env (suc n) s s1 s2 shuffles w ran =
    let (s3, first, w3) = daemon_round-Between env s s1 shuffles w in
    daemon_rounds-Between env n s s3 s2 shuffles w3 (ground (arith, first))
