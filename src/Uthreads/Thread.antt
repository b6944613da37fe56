-- ===== src/Uthreads/Thread.antt =====
-- ex2/Thread.h and ex2/Thread.cpp: the object of one thread, and the store that `new Thread`
-- allocates from. An address is a position in the store; nothing in the library frees a thread.
use os_huji.Prelude.{ℕ, zero, suc, ◌+◌, Option, List, [], ◌∷◌, ◌++◌, length, get_elem?}

-- Also the index of the queue `ready[pr]`: RED_Q, ORANGE_Q and GREEN_Q are 0, 1 and 2 in order.
pub data Priority : Type 0 where
  red orange green : Priority

pub data State : Type 0 where
  ready running block : State

-- Where the jump buffer of a thread continues: at the entry of `f` (the constructor), after the
-- `saveBuf` of `timeHandler`, or after the `saveBuf` of `uthread_suspend`.
pub data Context : Type 0 where
  entry handler suspension : Context

-- `f` is the address of the entry function, 0 for a null pointer.
pub record Thread : Type 0 where
  pub tid : ℕ
  pub pr : Priority
  pub quantom : ℕ
  pub f : ℕ
  pub state : State
  pub context : Context

unfoldable pub new_thread : ℕ → Priority → ℕ → State → Thread
new_thread tid pr f state = record {
  tid = tid;
  pr = pr;
  quantom = 0;
  f = f;
  state = state;
  context = entry;
}

abbrev pub set_state : State → Thread → Thread
set_state st t = record t { state = st }

abbrev pub increase_quantom : Thread → Thread
increase_quantom t = record t { quantom = t.quantom + 1 }

abbrev pub save_buf : Context → Thread → Thread
save_buf c t = record t { context = c }

abbrev pub Heap : Type 0
Heap = List Thread

abbrev pub deref : Heap → ℕ → Option Thread
deref h a = get_elem? h a

-- A write through a pointer.
unfoldable pub update : Heap → ℕ → (Thread → Thread) → Heap
update [] a g = []
update (t ∷ h) zero g = g t ∷ h
update (t ∷ h) (suc a) g = t ∷ update h a g

-- `new`: the next address, and the store with the object there.
abbrev pub alloc : Heap → Thread → ℕ × Heap
alloc h t = (length h, h ++ t ∷ [])
