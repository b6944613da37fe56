-- ===== src/Transfer/Threads.antt =====
-- The loop of the server's main in ex5/srftp.cpp, the threads that it starts, and `freeClients`.
use os_huji.Prelude.{
  ℕ, zero, suc, Bool, true, false, List, [], ◌∷◌, ◌++◌, if◌then◌else◌, ℤ, pos, negsuc, success,
  fail, Table, assign, remove, erase,
}
use os_huji.Transfer.Server.{Recv, recv_failed, Connection, Host, read_from_client}
use os_huji.Transfer.Main.{Server, call_close, call_pthread_create, err}

-- Where the main program is: at `accept`, between it and `_clients[clientFd] = client`, or in front
-- of `pthread_create`.
pub data Place : Type 0 where
  accepting inserting creating : Place

-- What happens to the loop: `accept` returns a descriptor or fails, the client is put into the map,
-- `pthread_create` succeeds or not, or one of the threads begins and reads the descriptor through
-- its pointer. The last may come between any two of the others.
pub data Event : Type 0 where
  accepts : ℕ → Event
  accept_fails inserts : Event
  creates : Bool → Event
  begins : Event

-- The place of the main program; `clientFd`, which all threads point to; the map of clients, with a
-- number for each object; how many threads have not begun; and the descriptors that the others
-- read, in order.
pub record Loop : Type 0 where
  pub place : Place
  pub client_fd : ℤ
  pub clients : Table
  pub objects : ℕ
  pub waiting : ℕ
  pub read : List ℤ

-- The loop goes on, main returns FAIL, or it is left for `freeClients`.
pub data Turn : Type 0 where
  again : Loop → Turn
  returns_fail : Loop → Turn
  leaves : Loop → Turn

-- `while((clientFd = accept(...)))`.
unfoldable pub accepted : ℕ → Loop → Turn
accepted zero l = leaves (record l { client_fd = pos 0 })
accepted (suc n) l = again (record l { client_fd = pos (suc n); place = inserting })

abbrev pub insert_client : ℤ → Loop → Loop
insert_client (pos fd) l = record l {
  clients = assign fd l.objects l.clients;
  objects = suc l.objects;
  place = creating;
}
insert_client (negsuc n) l = record l { place = creating }

-- A thread begins, if one waits.
abbrev pub begin : ℕ → Loop → Loop
begin zero l = l
begin (suc w) l = record l { waiting = w; read = l.read ++ l.client_fd ∷ [] }

-- An event of the main program that is out of place changes nothing.
unfoldable pub turn : Place → Event → Loop → Turn
turn accepting (accepts fd) l = accepted fd l
turn accepting accept_fails l = again (record l { client_fd = fail })
turn accepting inserts l = again l
turn accepting (creates created) l = again l
turn accepting begins l = again (begin l.waiting l)
turn inserting (accepts fd) l = again l
turn inserting accept_fails l = again l
turn inserting inserts l = again (insert_client l.client_fd l)
turn inserting (creates created) l = again l
turn inserting begins l = again (begin l.waiting l)
turn creating (accepts fd) l = again l
turn creating accept_fails l = again l
turn creating inserts l = again l
turn creating (creates true) l = again (record l { waiting = suc l.waiting; place = accepting })
turn creating (creates false) l = returns_fail l
turn creating begins l = again (begin l.waiting l)

unfoldable pub turns : List Event → Loop → Turn
turns [] l = again l
turns (e ∷ es) l = elim (turn l.place e l) [
  | again l1 ↦ turns es l1
  | returns_fail l1 ↦ returns_fail l1
  | leaves l1 ↦ leaves l1
]

unfoldable pub disconnect_client : (ℕ → Bool) → ℕ → Table → Server → ℤ × (Table × Server)
disconnect_client closes fd clients s =
    if closes fd
    then (success, (remove fd clients, s))
    else (fail, (remove fd clients, err call_close s))

-- `close(gServerFd)`; UNINITIALIZE_SERVER is -1, and no socket has another negative number.
abbrev pub close_server : Server → Server
close_server s = elim s.server_fd [
  | pos fd ↦ record s { opened = erase fd s.opened }
  | negsuc _ ↦ s
]

-- `freeClients` returns, ends its thread, or goes on from an element of the map that it erased.
pub data Freed : Type 0 where
  freed thread_exits : Server → Freed
  faults : Freed

unfoldable pub free_clients : (ℕ → Bool) → Table → Server → Freed
free_clients closes [] s = freed (close_server s)
free_clients closes ((fd, client) ∷ rest) s =
    let (result, (clients, s1)) =
      disconnect_client closes fd ((fd, client) ∷ rest) (close_server s) in
    elim result [ pos _ ↦ faults | negsuc _ ↦ thread_exits s1 ]

-- What main does behind its loop: its status, or the end of its thread or a fault.
pub data End : Type 0 where
  running : Loop → End
  status : ℤ → Loop → Server → End
  thread_gone : Server → End
  undefined : End

unfoldable pub serve : (ℕ → Bool) → List Event → Loop → Server → End
serve closes es l s = elim (turns es l) [
  | again l1 ↦ running l1
  | returns_fail l1 ↦ status fail l1 (err call_pthread_create s)
  | leaves l1 ↦ elim (free_clients closes l1.clients s) [
    | freed s1 ↦ status success l1 s1
    | thread_exits s1 ↦ thread_gone s1
    | faults ↦ undefined
  ]
]

-- `run`: `recv` on -1 fails, and each client has its own stream.
unfoldable pub run_client : Host → (ℕ → List Recv) → ℤ → Connection
run_client host streams (pos fd) = read_from_client host (streams fd)
run_client host streams (negsuc n) = read_from_client host (recv_failed ∷ [])
