-- ===== src/Transfer/Races.antt =====
-- The variable `clientFd` of ex5/srftp.cpp, which the main program writes and every new thread reads
-- through the pointer that it got.
use os_huji.Prelude.{
  append-nil, append_assoc, ℕ, zero, suc, ◌+◌, ◌<◌, ◌≡◌, ◌≢◌, refl, sym, ◌∙◌, subst, true, false,
  List, [], ◌∷◌, ◌++◌, map, All, ◌==◌, if◌then◌else◌, ℤ, pos, negsuc, assign, arith,
}
use os_huji.Transfer.Threads.{
  Place, accepting, inserting, creating, Event, accepts, accept_fails, inserts, creates, begins,
  Loop, Turn, again, returns_fail, leaves, accepted, insert_client, begin, turn, turns,
}

-- Each thread begins before the next client is accepted.
abbrev pub paced : List ℕ → List Event
paced [] = []
paced (fd ∷ fds) = accepts fd ∷ inserts ∷ creates true ∷ begins ∷ paced fds

-- When each thread begins before the next client is accepted, the threads read exactly the accepted
-- descriptors, each once and in order, and none is left waiting; no descriptor is 0.
pub turns-paced :
    (fds : List ℕ) (l : Loop)
    → All (λ fd. 0 < fd) fds
    → l.place ≡ accepting
    → l.waiting ≡ 0
    → (l2 : Loop) × (turns (paced fds) l ≡ again l2)
      × (l2.waiting ≡ 0)
      × (l2.read ≡ l.read ++ map pos fds)
unfolding turns turn accepted
turns-paced [] l h at_accept idle = (l, refl, idle, sym (append-nil l.read))
turns-paced (zero ∷ fds) l h at_accept idle = absurd (omega (arith, h.0))
turns-paced (suc n ∷ fds) l h at_accept idle =
    let l1 : Loop = record l {
      place = accepting;
      client_fd = pos (suc n);
      clients = assign (suc n) l.objects l.clients;
      objects = suc l.objects;
      waiting = 0;
      read = l.read ++ pos (suc n) ∷ [];
    } in
    let (l2, ran, rest, reads) = turns-paced fds l1 h.1 refl refl in
    (
      l2,
      rw at_accept (rw idle ran),
      rest,
      reads ∙ append_assoc l.read (pos (suc n) ∷ []) (map pos fds),
    )

-- How many threads read a descriptor.
abbrev pub is_fd : ℕ → ℤ → ℕ
is_fd a (pos b) = if a == b then 1 else 0
is_fd a (negsuc b) = 0

abbrev pub reads : ℕ → List ℤ → ℕ
reads a [] = 0
reads a (z ∷ zs) = is_fd a z + reads a zs

reads-append : (a : ℕ) (xs ys : List ℤ) → reads a (xs ++ ys) ≡ reads a xs + reads a ys
reads-append a [] ys = omega arith
reads-append a (x ∷ xs) ys = omega (arith, reads-append a xs ys)

-- No client with the descriptor is accepted.
abbrev pub Other : ℕ → Event → Type 0
Other a (accepts b) = a ≢ b
Other a _ = Unit

-- The variable holds something else, and as many threads as before have read the descriptor.
abbrev pub Unread : ℕ → ℕ → Turn → Type 0
Unread a k (again l) = (is_fd a l.client_fd ≡ 0) × (reads a l.read ≡ k)
Unread a k (returns_fail l) = Unit
Unread a k (leaves l) = Unit

begin-Unread :
    (a w : ℕ) (l : Loop) → is_fd a l.client_fd ≡ 0 → Unread a (reads a l.read) (again (begin w l))
begin-Unread a zero l other = (other, refl)
begin-Unread a (suc w) l other =
    (other, omega (arith, reads-append a l.read (l.client_fd ∷ []), other))

insert-Unread :
    (a : ℕ) (z : ℤ) (l : Loop)
    → is_fd a l.client_fd ≡ 0
    → Unread a (reads a l.read) (again (insert_client z l))
insert-Unread a (pos fd) l other = (other, refl)
insert-Unread a (negsuc n) l other = (other, refl)

turn-Unread :
    (a : ℕ) (p : Place) (e : Event) (l : Loop)
    → Other a e
    → is_fd a l.client_fd ≡ 0
    → Unread a (reads a l.read) (turn p e l)
unfolding turn accepted
turn-Unread a accepting (accepts zero) l h other = tt
turn-Unread a accepting (accepts (suc n)) l h other = (ground (arith, h), refl)
turn-Unread a accepting accept_fails l h other = (refl, refl)
turn-Unread a accepting inserts l h other = (other, refl)
turn-Unread a accepting (creates created) l h other = (other, refl)
turn-Unread a accepting begins l h other = begin-Unread a l.waiting l other
turn-Unread a inserting (accepts fd) l h other = (other, refl)
turn-Unread a inserting accept_fails l h other = (other, refl)
turn-Unread a inserting inserts l h other = insert-Unread a l.client_fd l other
turn-Unread a inserting (creates created) l h other = (other, refl)
turn-Unread a inserting begins l h other = begin-Unread a l.waiting l other
turn-Unread a creating (accepts fd) l h other = (other, refl)
turn-Unread a creating accept_fails l h other = (other, refl)
turn-Unread a creating inserts l h other = (other, refl)
turn-Unread a creating (creates true) l h other = (other, refl)
turn-Unread a creating (creates false) l h other = tt
turn-Unread a creating begins l h other = begin-Unread a l.waiting l other

-- While the variable holds something else, no thread reads the descriptor.
turns-Unread :
    (a : ℕ) (es : List Event) (l : Loop)
    → All (Other a) es
    → is_fd a l.client_fd ≡ 0
    → Unread a (reads a l.read) (turns es l)
unfolding turns
turns-Unread a [] l h other = (other, refl)
turns-Unread a (e ∷ es) l h other =
    next (turn l.place e l) (turn-Unread a l.place e l h.0 other) (turns-Unread a es)
  where
    next :
        (t : Turn)
        → Unread a (reads a l.read) t
        → ((l1 : Loop)
            → All (Other a) es
            → is_fd a l1.client_fd ≡ 0
            → Unread a (reads a l1.read) (turns es l1))
        → Unread a (reads a l.read) (elim t [
          | again l1 ↦ turns es l1
          | returns_fail l1 ↦ returns_fail l1
          | leaves l1 ↦ leaves l1
        ])
    next (again l1) u k = subst (λ n. Unread a n (turns es l1)) u.1 (k l1 h.1 u.0)
    next (returns_fail l1) u k = tt
    next (leaves l1) u k = tt

-- A client that is accepted while the thread of the one before has not begun takes its place: unless
-- that descriptor is accepted again, no later thread reads it, whatever else happens.
pub turns-unserved :
    (a b : ℕ) (es : List Event) (l l2 : Loop)
    → l.place ≡ accepting
    → a ≢ b
    → All (Other a) es
    → turns (accepts a ∷ inserts ∷ creates true ∷ accepts b ∷ es) l ≡ again l2
    → reads a l2.read ≡ reads a l.read
unfolding turns turn accepted
turns-unserved zero b es l l2 p ne h ran = absurd (ground (arith, ran, p))
turns-unserved (suc a) zero es l l2 p ne h ran = absurd (ground (arith, ran, p))
turns-unserved (suc a) (suc b) es l l2 p ne h ran =
    let l1 : Loop = record l {
      place = inserting;
      client_fd = pos (suc b);
      clients = assign (suc a) l.objects l.clients;
      objects = suc l.objects;
      waiting = suc l.waiting;
    } in
    let went : turns es l1 ≡ again l2 = ground (arith, ran, p) in
    (subst (Unread (suc a) (reads (suc a) l.read)) went
      (turns-Unread (suc a) es l1 h (ground (arith, ne)))).1
