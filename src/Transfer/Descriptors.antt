-- ===== src/Transfer/Descriptors.antt =====
-- The descriptors that the threads of ex5/srftp.cpp read, and the map of clients.
use os_huji.Prelude.{
  ℕ, zero, suc, ◌<◌, ◌≡◌, ◌≢◌, refl, sym, subst, ◌⊎◌, inl, inr, true, false, none, List, [], ◌∷◌,
  ◌++◌, All, ℤ, pos, negsuc, fail, Table, lookup, assign, lookup-assign, lookup-assign_self, arith,
}
use os_huji.Transfer.Threads.{
  Place, accepting, inserting, creating, Event, accepts, accept_fails, inserts, creates, begins,
  Loop, Turn, again, returns_fail, leaves, accepted, insert_client, begin, turn, turns,
}

-- A descriptor that a thread can read: that of a client in the map, or -1 of an `accept` that failed.
abbrev pub IsKnown : Table → ℤ → Type 0
IsKnown clients (pos fd) = lookup fd clients ≢ none
IsKnown clients (negsuc n) = Unit

-- What a thread has read: a known descriptor, or the variable while its client is not in the map.
abbrev pub IsRead : Loop → ℤ → Type 0
IsRead l z = IsKnown l.clients z ⊎ ((l.place ≡ inserting) × (z ≡ l.client_fd))

-- Somebody is going to read the variable: a thread waits, or is about to be created.
abbrev pub IsAwaited : Place → ℕ → Type 0
IsAwaited accepting w = 0 < w
IsAwaited inserting w = ⊥
IsAwaited creating w = Unit

pub record IsSafe (l : Loop) : Type 0 where
  pub variable : IsAwaited l.place l.waiting → IsKnown l.clients l.client_fd
  pub taken : All (IsRead l) l.read

assign-IsKnown : (k v : ℕ) (m : Table) (z : ℤ) → IsKnown m z → IsKnown (assign k v m) z
assign-IsKnown k v m (pos fd) h = lookup-assign k v fd m h
assign-IsKnown k v m (negsuc n) h = tt

module _ {P Q : ℤ → Type 0} (f : (z : ℤ) → P z → Q z) where
  All-map : (zs : List ℤ) → All P zs → All Q zs
  All-map [] h = tt
  All-map (z ∷ zs) h = (f z h.0, All-map zs h.1)

All-snoc : (P : ℤ → Type 0) (z : ℤ) (zs : List ℤ) → All P zs → P z → All P (zs ++ z ∷ [])
All-snoc P z [] h k = (k, tt)
All-snoc P z (y ∷ zs) h k = (h.0, All-snoc P z zs h.1 k)

IsRead-IsKnown : (l : Loop) → l.place ≢ inserting → (z : ℤ) → IsRead l z → IsKnown l.clients z
IsRead-IsKnown l ne z (inl k) = k
IsRead-IsKnown l ne z (inr (p, e)) = absurd (ne p)

abbrev pub OnAgain : (Loop → Type 0) → Turn → Type 0
OnAgain P (again l) = P l
OnAgain P (returns_fail l) = Unit
OnAgain P (leaves l) = Unit

begin-IsSafe : (w : ℕ) (l : Loop) → IsSafe l → l.waiting ≡ w → IsSafe (begin w l)
begin-IsSafe zero l v e = v
begin-IsSafe (suc w) l v e = record {
  variable = λ h. v.variable (awaited l.place h);
  taken = All-snoc (IsRead l) l.client_fd l.read v.taken (readable l.place refl);
}
  where
    awaited : (p : Place) → IsAwaited p w → IsAwaited p l.waiting
    awaited accepting h = omega (arith, e)
    awaited inserting h = h
    awaited creating h = h

    readable : (p : Place) → l.place ≡ p → IsRead l l.client_fd
    readable accepting q =
        inl (v.variable (subst (λ x. IsAwaited x l.waiting) (sym q) (omega (arith, e))))
    readable inserting q = inr (q, refl)
    readable creating q = inl (v.variable (subst (λ x. IsAwaited x l.waiting) (sym q) tt))

-- With its client in the map, the variable is known to all that read it early.
caught_up :
    (l l1 : Loop)
    → ((z : ℤ) → IsKnown l.clients z → IsKnown l1.clients z)
    → IsKnown l1.clients l.client_fd
    → (z : ℤ) → IsRead l z
    → IsRead l1 z
caught_up l l1 f known z (inl k) = inl (f z k)
caught_up l l1 f known z (inr (p, q)) = inl (subst (IsKnown l1.clients) (sym q) known)

insert-IsSafe : (z : ℤ) (l : Loop) → IsSafe l → l.client_fd ≡ z → IsSafe (insert_client z l)
insert-IsSafe (pos fd) l v e =
    let l1 = insert_client (pos fd) l in
    let here : IsKnown l1.clients (pos fd) =
      ground (arith, lookup-assign_self fd l.objects l.clients) in
    let known : IsKnown l1.clients l.client_fd = subst (IsKnown l1.clients) (sym e) here in
    record {
      variable = λ h. known;
      taken = All-map (caught_up l l1 (assign-IsKnown fd l.objects l.clients) known) l.read v.taken;
    }
insert-IsSafe (negsuc n) l v e =
    let l1 = insert_client (negsuc n) l in
    let known : IsKnown l1.clients l.client_fd = subst (IsKnown l1.clients) (sym e) tt in
    record {
      variable = λ h. known;
      taken = All-map (caught_up l l1 (λ z k. k) known) l.read v.taken;
    }

-- Where the client of the variable is in the map, so is everything that was read.
moved :
    (l l1 : Loop)
    → l.place ≢ inserting
    → l1.clients ≡ l.clients
    → l1.read ≡ l.read
    → IsSafe l
    → All (IsRead l1) l1.read
moved l l1 ne same reads v = subst (All (IsRead l1)) (sym reads) (
    All-map (λ z h. inl (subst (λ m. IsKnown m z) (sym same) (IsRead-IsKnown l ne z h))) l.read
      v.taken)

turn-IsSafe :
    (p : Place) (e : Event) (l : Loop) → l.place ≡ p → IsSafe l → OnAgain IsSafe (turn p e l)
unfolding turn accepted
turn-IsSafe accepting (accepts zero) l q v = tt
turn-IsSafe accepting (accepts (suc n)) l q v = record {
  variable = λ h. absurd h;
  taken =
      moved l (record l { client_fd = pos (suc n); place = inserting }) (λ r. ground (arith, q, r))
        refl refl v;
}
turn-IsSafe accepting accept_fails l q v = record {
  variable = λ h. tt;
  taken = moved l (record l { client_fd = fail }) (λ r. ground (arith, q, r)) refl refl v;
}
turn-IsSafe accepting inserts l q v = v
turn-IsSafe accepting (creates created) l q v = v
turn-IsSafe accepting begins l q v = begin-IsSafe l.waiting l v refl
turn-IsSafe inserting (accepts fd) l q v = v
turn-IsSafe inserting accept_fails l q v = v
turn-IsSafe inserting inserts l q v = insert-IsSafe l.client_fd l v refl
turn-IsSafe inserting (creates created) l q v = v
turn-IsSafe inserting begins l q v = begin-IsSafe l.waiting l v refl
turn-IsSafe creating (accepts fd) l q v = v
turn-IsSafe creating accept_fails l q v = v
turn-IsSafe creating inserts l q v = v
turn-IsSafe creating (creates true) l q v = record {
  variable = λ h. v.variable (subst (λ x. IsAwaited x l.waiting) (sym q) tt);
  taken =
      moved l (record l { waiting = suc l.waiting; place = accepting }) (λ r. ground (arith, q, r))
        refl refl v;
}
turn-IsSafe creating (creates false) l q v = tt
turn-IsSafe creating begins l q v = begin-IsSafe l.waiting l v refl

turns-OnAgain : (es : List Event) (l : Loop) → IsSafe l → OnAgain IsSafe (turns es l)
unfolding turns
turns-OnAgain [] l v = v
turns-OnAgain (e ∷ es) l v =
    next (turn l.place e l) (turn-IsSafe l.place e l refl v) (turns-OnAgain es)
  where
    next :
        (t : Turn)
        → OnAgain IsSafe t
        → ((l1 : Loop) → IsSafe l1 → OnAgain IsSafe (turns es l1))
        → OnAgain IsSafe (elim t [
          | again l1 ↦ turns es l1
          | returns_fail l1 ↦ returns_fail l1
          | leaves l1 ↦ leaves l1
        ])
    next (again l1) u k = k l1 u
    next (returns_fail l1) u k = tt
    next (leaves l1) u k = tt

-- From a state of the loop in which it holds, as the one without threads, it holds for as long as
-- the loop goes on, whatever happens to it: every descriptor that a thread has read is -1 or that
-- of a client in the map, for which `at` does not throw, unless the main program is between
-- `accept` and the map's insertion and the descriptor is the one that it is about to insert; and
-- everywhere else the variable is -1 or the descriptor of a client in the map, if a thread waits.
pub turns-IsSafe : (es : List Event) (l l2 : Loop) → IsSafe l → turns es l ≡ again l2 → IsSafe l2
turns-IsSafe es l l2 v ran = subst (OnAgain IsSafe) ran (turns-OnAgain es l v)
