-- ===== src/Blockchain/Store.antt =====
-- Laws of the store of ex3/Block.cpp, and of entries of a map.
use os_huji.Prelude.{
  ℕ, zero, suc, ◌≡◌, refl, none, some, [], ◌∷◌, ◌++◌, length, ◌==◌, if◌then◌else◌, arith, Table,
  lookup, lookup_below, IsFrom, All,
}
use os_huji.Blockchain.Block.{Block, Heap, deref, on_some, update}

pub deref-update :
    (h : Heap) (a c : ℕ) (g : Block → Block)
    → deref (update h a g) c ≡ (if c == a then on_some g (deref h c) else deref h c)
unfolding update deref
deref-update [] a c g = ground arith
deref-update (o ∷ h) zero zero g = refl
deref-update (o ∷ h) zero (suc c) g = ground arith
deref-update (o ∷ h) (suc a) zero g = ground arith
deref-update (o ∷ h) (suc a) (suc c) g = ground (arith, deref-update h a c g)

pub deref-alloc :
    (h : Heap) (b : Block) (c : ℕ)
    → deref (h ++ some b ∷ []) c ≡ (if c == length h then some b else deref h c)
unfolding deref
deref-alloc [] b zero = refl
deref-alloc [] b (suc c) = ground arith
deref-alloc (o ∷ h) b zero = ground arith
deref-alloc (o ∷ h) b (suc c) = ground (arith, deref-alloc h b c)

pub deref-length : (h : Heap) → deref h (length h) ≡ none
unfolding deref
deref-length [] = refl
deref-length (o ∷ h) = deref-length h

-- From what holds of every lookup to what holds of every entry of a map in key order.
pub lookup-All {ℓ} :
    (P : ℕ → ℕ → Type ℓ) (i : ℕ) (m : Table)
    → IsFrom i m
    → ((k a : ℕ) → lookup k m ≡ some a → P k a)
    → All (λ e. P e.0 e.1) m
unfolding lookup
lookup-All P i [] v p = tt
lookup-All P i ((k, a) ∷ m) v p = (
  p k a (ground arith),
  lookup-All P (suc k) m v.1 (λ j c e. p j c (ground (arith, lookup_below (suc k) j m v.1))),
)
