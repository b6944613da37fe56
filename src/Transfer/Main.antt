-- ===== src/Transfer/Main.antt =====
-- The main programs of ex5/srftp.cpp and ex5/clftp.cpp up to the transfer: arguments and sockets.
use os_huji.Prelude.{
  ℕ, ◌-◌, ◌^◌, ◌%◌, Bool, not, ◌||◌, Option, none, some, List, [], ◌∷◌, ◌++◌, if◌then◌else◌, ℤ, pos,
  negsuc, success, fail,
}
use os_huji.Prelude.Numbers.{Text, atoi}
use os_huji.Transfer.Numbers.{is_integer}
use os_huji.Transfer.Client.{
  Session, Ran, goes_on, exits, spins, InFile, Link, Reply, Memory, say, usage, sys_error, is_zero,
  write_to_server,
}
use os_huji.Transfer.Server.{greater}

-- The test of a port that both programs make.
abbrev pub is_port : Text → Bool
is_port s = not (not (is_integer s) || greater (atoi s) (pos 65535) || greater (pos 1) (atoi s))

-- The arguments of the server with the program's name: the port and the limit, if they are accepted.
unfoldable pub server_arguments : List Text → Option (ℤ × ℤ)
server_arguments (program ∷ port ∷ size ∷ []) =
    if not (is_port port) || not (is_integer size) || not (greater (atoi size) (pos 0))
    then none
    else some (atoi port, atoi size)
server_arguments _ = none

-- The client's: the port, the host, the file and its name in the server.
unfoldable pub client_arguments : List Text → Option (ℤ × (Text × (Text × Text)))
client_arguments (program ∷ port ∷ host ∷ file ∷ name ∷ []) =
    if is_port port then some (atoi port, (host, (file, name))) else none
client_arguments _ = none

-- `htons` takes the lower 16 bits.
abbrev pub short : ℤ → ℕ
short (pos n) = n % 2 ^ 16
short (negsuc n) = 2 ^ 16 - 1 - n % 2 ^ 16

-- What the calls of `connectToClient` and `connectToServer` return.
pub record Sockets : Type 0 where
  pub resolves : Bool
  pub socket : Option ℕ
  pub binds : ℕ → Bool
  pub listens : Bool
  pub connects : ℕ → Bool

pub data Call : Type 0 where
  call_gethostbyname call_socket call_bind call_listen call_close call_pthread_create : Call

-- The globals of the server, the sockets that it holds open and the calls whose errors it printed.
pub record Server : Type 0 where
  pub server_fd : ℤ
  pub opened : List ℕ
  pub errors : List Call

abbrev pub err : Call → Server → Server
err c s = record s { errors = s.errors ++ c ∷ [] }

unfoldable pub connect_to_client : Sockets → ℤ → Server → ℤ × Server
connect_to_client k port s =
    if not k.resolves then (fail, err call_gethostbyname s) else elim k.socket [
      | none ↦ (fail, err call_socket (record s { server_fd = fail }))
      | some fd ↦
          if not (k.binds (short port))
          then (fail, err call_bind (record s { server_fd = pos fd }))
          else if not k.listens
          then (fail, err call_listen (record s { server_fd = pos fd; opened = fd ∷ s.opened }))
          else (success, record s { server_fd = pos fd; opened = fd ∷ s.opened })
    ]

-- The server's main up to its loop: usage, no socket, or the limit and the state that it listens in.
pub data Start : Type 0 where
  shows_usage : Start
  stops : Server → Start
  serves : ℤ → Server → Start

-- gServerFd is a global, which starts at 0.
abbrev pub initial : Server
initial = record { server_fd = pos 0; opened = []; errors = [] }

unfoldable pub server_main : Sockets → List Text → Start
server_main k argv = elim (server_arguments argv) [
  | none ↦ shows_usage
  | some (port, max) ↦
      let (result, s) = connect_to_client k port initial in
      if is_zero result then serves max s else stops s
]

-- The client's socket is closed only by the end of the process.
unfoldable pub connect_to_server : Sockets → ℤ → Session → ℤ × Session
connect_to_server k port s = if not k.resolves then (fail, say sys_error s) else elim k.socket [
  | none ↦ (fail, say sys_error s)
  | some fd ↦ if k.connects (short port) then (success, s) else (fail, say sys_error s)
]

-- `main` of the client; `files` has the file of each path.
unfoldable pub client_main : Sockets → Link → Memory → Reply → (Text → InFile) → List Text → Ran ℤ
client_main k link memory reply files argv =
    let s0 : Session = record { wire = []; printed = [] } in
    elim (client_arguments argv) [
      | none ↦ exits 1 (say usage s0)
      | some (port, (host, (file, name))) ↦
          let (result, s) = connect_to_server k port s0 in
          if is_zero result
          then elim (write_to_server link memory reply (files file) name s) [
            | goes_on r s1 ↦ if is_zero r then goes_on success s1 else exits 1 s1
            | exits n s1 ↦ exits n s1
            | spins ↦ spins
          ]
          else exits 1 s
    ]
