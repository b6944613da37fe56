-- ===== src/Uthreads/Store.antt =====
-- Laws of the store of ex2/Thread.cpp: what a write through a pointer and `new` change.
use os_huji.Prelude.{
  ℕ, zero, suc, ◌+◌, ◌<◌, ◌≡◌, refl, ap, Option, none, some, [], ◌∷◌, ◌++◌, length, ◌==◌,
  if◌then◌else◌, Bool-cases, inl, inr, arith,
}
use os_huji.Uthreads.Thread.{
  State, running, Thread, Heap, deref, update, set_state, increase_quantom,
}

abbrev pub on_some : (Thread → Thread) → Option Thread → Option Thread
on_some g none = none
on_some g (some t) = some (g t)

-- The quantums of every thread ever created.
abbrev pub sum_quantoms : Heap → ℕ
sum_quantoms [] = 0
sum_quantoms (t ∷ h) = t.quantom + sum_quantoms h

pub deref-update :
    (h : Heap) (a b : ℕ) (g : Thread → Thread)
    → deref (update h a g) b ≡ (if b == a then on_some g (deref h b) else deref h b)
unfolding update
deref-update [] a b g = ground arith
deref-update (t ∷ h) zero zero g = refl
deref-update (t ∷ h) zero (suc b) g = ground arith
deref-update (t ∷ h) (suc a) zero g = ground arith
deref-update (t ∷ h) (suc a) (suc b) g = ground (arith, deref-update h a b g)

pub length-update : (h : Heap) (a : ℕ) (g : Thread → Thread) → length (update h a g) ≡ length h
unfolding update
length-update [] a g = refl
length-update (t ∷ h) zero g = refl
length-update (t ∷ h) (suc a) g = ap suc (length-update h a g)

pub sum_quantoms-update :
    (h : Heap) (a : ℕ) (g : Thread → Thread) (t : Thread)
    → deref h a ≡ some t
    → sum_quantoms (update h a g) + t.quantom ≡ sum_quantoms h + (g t).quantom
unfolding update
sum_quantoms-update [] a g t e = ground arith
sum_quantoms-update (u ∷ h) zero g t e = ground arith
sum_quantoms-update (u ∷ h) (suc a) g t e = ground (arith, sum_quantoms-update h a g t)

pub deref-alloc :
    (h : Heap) (t : Thread) (b : ℕ)
    → deref (h ++ t ∷ []) b ≡ (if b == length h then some t else deref h b)
deref-alloc [] t zero = refl
deref-alloc [] t (suc b) = ground arith
deref-alloc (u ∷ h) t zero = ground arith
deref-alloc (u ∷ h) t (suc b) = ground (arith, deref-alloc h t b)

pub sum_quantoms-alloc :
    (h : Heap) (t : Thread) → sum_quantoms (h ++ t ∷ []) ≡ sum_quantoms h + t.quantom
sum_quantoms-alloc [] t = omega arith
sum_quantoms-alloc (u ∷ h) t = omega (arith, sum_quantoms-alloc h t)

pub deref-lt-length : (h : Heap) (a : ℕ) (t : Thread) → deref h a ≡ some t → a < length h
deref-lt-length [] a t e = ground arith
deref-lt-length (u ∷ h) zero t e = omega arith
deref-lt-length (u ∷ h) (suc a) t e = omega (arith, deref-lt-length h a t e)

pub deref-length : (h : Heap) → deref h (length h) ≡ none
deref-length [] = refl
deref-length (u ∷ h) = deref-length h

-- The store after one thread has left the processor in a state and another has taken it.
abbrev pub hand_over : State → ℕ → ℕ → Heap → Heap
hand_over st a b h =
    update (update (update h a (set_state st)) b (set_state running)) b increase_quantom

pub deref-hand_over :
    (st : State) (a b c : ℕ) (h : Heap)
    → deref (hand_over st a b h) c ≡ (
        if c == b
        then on_some (λ t. increase_quantom (set_state running t)) (deref h c)
        else if c == a
        then on_some (set_state st) (deref h c)
        else deref h c)
deref-hand_over st a b c h = ground (
  arith,
  deref-update h a c (set_state st),
  deref-update (update h a (set_state st)) b c (set_state running),
  deref-update (update (update h a (set_state st)) b (set_state running)) b c increase_quantom,
)

sum_quantoms-set_state :
    (st : State) (a : ℕ) (h : Heap) → sum_quantoms (update h a (set_state st)) ≡ sum_quantoms h
unfolding update
sum_quantoms-set_state st a [] = refl
sum_quantoms-set_state st zero (u ∷ h) = refl
sum_quantoms-set_state st (suc a) (u ∷ h) = ground (arith, sum_quantoms-set_state st a h)

pub sum_quantoms-hand_over :
    (st : State) (a b : ℕ) (h : Heap) (t : Thread)
    → deref h b ≡ some t
    → sum_quantoms (hand_over st a b h) ≡ sum_quantoms h + 1
sum_quantoms-hand_over st a b h t e =
    let h1 : Heap = update h a (set_state st) in
    let h2 : Heap = update h1 b (set_state running) in
    elim (Bool-cases (b == a)) [
      | inl same ↦ ground (
        arith,
        sum_quantoms-set_state st a h,
        sum_quantoms-set_state running b h1,
        deref-update h a b (set_state st),
        deref-update h1 b b (set_state running),
        sum_quantoms-update h2 b increase_quantom (set_state running (set_state st t)),
      )
      | inr other ↦ ground (
        arith,
        sum_quantoms-set_state st a h,
        sum_quantoms-set_state running b h1,
        deref-update h a b (set_state st),
        deref-update h1 b b (set_state running),
        sum_quantoms-update h2 b increase_quantom (set_state running t),
      )
    ]
