-- ===== src/Blockchain/Tests/Pruning.antt =====
-- Runs of `prune_chain` of ex3/blockchain.cpp, and an application of its theorem.
use os_huji.Prelude.{
  contains, suc, if◌then◌else◌, ℕ, ◌≤◌, ◌≡◌, refl, true, none, some, List, [], ◌∷◌, ◌++◌, count,
  keys, success, subst, arith, lookup,
}
use os_huji.Blockchain.Block.{Block, deref}
use os_huji.Blockchain.Chain.{Chain, Env, ◌>>=◌, done, fault}
use os_huji.Blockchain.Library.{returns, was_added, not_found}
use os_huji.Blockchain.Prune.{prune_chain}
use os_huji.Blockchain.Invariant.{Inv, Keeps}
use os_huji.Blockchain.Trace.{Act, adds, takes, attaches, play, play-Keeps}
use os_huji.Blockchain.Starting.{opened, opened-Inv}
use os_huji.Blockchain.Taking.{IsDeepest}
use os_huji.Blockchain.Marks.{path}
use os_huji.Blockchain.Pruning.{prune_chain_path}
use os_huji.Blockchain.Tests.{program, env, env-Shuffles, boot, boot-Shut, chain_of, after}

-- `prune_chain` looks up every index that is given out in the map, those of waiting blocks too.
prune_waiting : prune_chain env after ≡ fault
unfolding after program
prune_waiting = refl

-- A shuffle that puts the first candidate last.
abbrev rotate : List ℕ → List ℕ
rotate [] = []
rotate (k ∷ ks) = ks ++ k ∷ []

abbrev rotating : Env
rotating = record env { random_shuffle = rotate }

-- Three brothers, of which the second one is to stay.
abbrev family : List (Env × Act)
family =
    (env, adds none 0)
    ∷ (env, adds none 0)
    ∷ (env, adds none 0)
    ∷ (env, takes)
    ∷ (env, attaches)
    ∷ (env, takes)
    ∷ (env, attaches)
    ∷ (env, takes)
    ∷ (env, attaches)
    ∷ []

brothers : Chain
unfolding program
brothers = chain_of (play family (opened boot))

brothers-runs : play family (opened boot) ≡ done brothers
unfolding brothers
brothers-runs = refl

brothers-Inv : Inv brothers
brothers-Inv = subst (Keeps (λ x. x)) brothers-runs (
    play-Keeps family (opened boot) (opened-Inv boot boot-Shut) (
      env-Shuffles,
      (
        env-Shuffles,
        (
          env-Shuffles,
          (
            env-Shuffles,
            (env-Shuffles, (env-Shuffles, (env-Shuffles, (env-Shuffles, (env-Shuffles, tt))))),
          ),
        ),
      ),
    ))

rotate-contains : (k : ℕ) (ks : List ℕ) → contains k (rotate ks) ≡ contains k ks
rotate-contains k [] = refl
rotate-contains k (x ∷ ks) = go ks
  where
    go : (xs : List ℕ) → contains k (xs ++ x ∷ []) ≡ contains k (x ∷ xs)
    go [] = refl
    go (y ∷ xs) = ground (arith, go xs)

abbrev pruned : Chain
pruned = chain_of (do r ← prune_chain rotating brothers; done r.0)

-- Once an index was erased, the last one is compared with its own copy behind the end: it stays,
-- though its block is pruned, and is never used again.
prune_keeps_index : (keys pruned.block_map ≡ 0 ∷ 2 ∷ []) × (pruned.vec_index ≡ 0 ∷ 2 ∷ 3 ∷ [])
unfolding brothers program
prune_keeps_index = (refl, refl)

-- Block 3, which was hashed last, is gone, and the answer is that it is still to be attached.
prune_answers : was_added 3 pruned ≡ done (pruned, returns not_found)
unfolding brothers program
prune_answers = refl

prune_chain_path_example :
    (s' : Chain) × (prune_chain rotating brothers ≡ done (s', returns success))
    × (k : ℕ) × (a : ℕ) × (b : Block) × (lookup k brothers.block_map ≡ some a)
    × (deref brothers.heap a ≡ some b)
    × IsDeepest brothers b.depth
    × ((j : ℕ)
        → lookup j s'.block_map ≡ (
            if contains j (path (suc b.depth) brothers.heap a)
            then lookup j brothers.block_map
            else none))
    × ((j : ℕ)
        → contains j (path (suc b.depth) brothers.heap a) ≡ true
        → count j s'.vec_index ≡ count j brothers.vec_index)
    × ((j : ℕ) → count j s'.vec_index ≤ count j brothers.vec_index)
unfolding brothers
prune_chain_path_example =
    prune_chain_path rotating brothers brothers-Inv rotate-contains (λ k a. refl) refl refl refl
