-- ===== src/Transfer/Client.antt =====
-- The class `Client` of ex5/clftp.cpp, its main program apart. A run keeps what was sent and printed.
use os_huji.Prelude.{
  ℕ, zero, suc, ◌+◌, ◌-◌, ◌/◌, Bool, false, not, List, [], ◌∷◌, ◌++◌, length, take, drop, ltb, ◌==◌,
  if◌then◌else◌, ℤ, pos, negsuc, success, fail,
}
use os_huji.Prelude.Numbers.{Text, atoi, to_string, to_int}

-- The messages that the program prints.
pub data Message : Type 0 where
  too_big stream_error sys_error usage : Message

-- The byte strings that `send` has accepted, one for each call, and the messages printed.
pub record Session : Type 0 where
  pub wire : List Text
  pub printed : List Message

-- A part of the program goes on, or ends the process with `exit`; a loop without fuel `spins`.
pub data Ran {ℓ} (A : Type ℓ) : Type ℓ where
  goes_on : A → Session → Ran A
  exits : ℕ → Session → Ran A
  spins : Ran A

-- A file that was opened, with what `good` reports then and after `seekg`.
pub record InFile : Type 0 where
  pub good : Bool
  pub contents : Text
  pub seek_good : Bool

-- The socket: whether the send number `k` fails, and how many of its bytes it takes if not.
pub record Link : Type 0 where
  pub send_fails : ℕ → Bool
  pub send_takes : ℕ → ℕ → ℕ

-- What `recv` of one byte returns, and the memory that `atoi` reads: the byte of the new buffer if
-- nothing is received, and the text behind it.
pub data Reply : Type 0 where
  reply_failed reply_closed : Reply
  reply_byte : ℕ → Reply

pub record Memory : Type 0 where
  pub stale : ℕ
  pub behind : Text

abbrev pub say : Message → Session → Session
say m s = record s { printed = s.printed ++ m ∷ [] }

-- `sendMsgToServer`, which does not look at the number of bytes taken.
unfoldable pub send_msg_to_server : Link → Text → Session → Ran (Unit {0})
send_msg_to_server link msg s =
    let k = length s.wire in
    if link.send_fails k
    then exits 1 (say sys_error s)
    else goes_on tt (record s { wire = s.wire ++ take (link.send_takes k (length msg)) msg ∷ [] })

abbrev pub is_zero : ℤ → Bool
is_zero (pos n) = n == 0
is_zero (negsuc n) = false

-- `reciveMsg`
unfoldable pub receive_msg : Memory → Reply → Session → ℤ × Session
receive_msg memory reply s = elim reply [
  | reply_failed ↦
      (if is_zero (atoi (memory.stale ∷ memory.behind)) then success else fail, say sys_error s)
  | reply_closed ↦ (if is_zero (atoi (memory.stale ∷ memory.behind)) then success else fail, s)
  | reply_byte b ↦ (if is_zero (atoi (b ∷ memory.behind)) then success else fail, s)
]

-- The rest of the file behind the loop, from `at` on.
unfoldable pub send_last : Link → Text → ℕ → ℕ → Session → Ran (Unit {0})
send_last link bytes at to_send s =
    if to_send == 0 then goes_on tt s else send_msg_to_server link (take to_send (drop at bytes)) s

-- The loop over blocks of BUFF_SIZE, for `fuel` rounds, and what follows it.
unfoldable pub send_blocks : Link → Text → ℕ → ℕ → ℕ → Session → Ran (Unit {0})
send_blocks link bytes zero at to_send s =
    if ltb to_send 1024 then send_last link bytes at to_send s else spins
send_blocks link bytes (suc fuel) at to_send s =
    if ltb to_send 1024
    then send_last link bytes at to_send s
    else elim (send_msg_to_server link (take 1024 (drop at bytes)) s) [
      | goes_on _ s1 ↦ send_blocks link bytes fuel (at + 1024) (to_send - 1024) s1
      | exits n s1 ↦ exits n s1
      | spins ↦ spins
    ]

-- `writeToServer` behind the acknowledgement: the name and the file. Each round of the loop takes
-- BUFF_SIZE off, so `size / BUFF_SIZE` rounds are enough.
unfoldable pub send_file : Link → InFile → Text → ℕ → Session → Ran ℤ
send_file link file server_name size s = elim (send_msg_to_server link server_name s) [
  | goes_on _ s1 ↦ elim (send_blocks link file.contents (size / 1024) 0 size s1) [
    | goes_on _ s2 ↦ goes_on success s2
    | exits n s2 ↦ exits n s2
    | spins ↦ spins
  ]
  | exits n s1 ↦ exits n s1
  | spins ↦ spins
]

-- From the size on. `tellg` at the end of the file is its length, and `size` is an `int`.
unfoldable pub send_size : Link → Memory → Reply → InFile → Text → ℤ → Session → Ran ℤ
send_size link memory reply file server_name (negsuc n) s = goes_on fail (say stream_error s)
send_size link memory reply file server_name (pos size) s =
    if not file.seek_good
    then goes_on fail (say stream_error s)
    else elim (send_msg_to_server link (to_string size) s) [
      | goes_on _ s1 ↦
          let (answer, s2) = receive_msg memory reply s1 in
          elim answer [
            | pos _ ↦ send_file link file server_name size s2
            | negsuc _ ↦ exits 1 (say too_big s2)
          ]
      | exits n s1 ↦ exits n s1
      | spins ↦ spins
    ]

unfoldable pub write_to_server : Link → Memory → Reply → InFile → Text → Session → Ran ℤ
write_to_server link memory reply file server_name s =
    if not file.good
    then goes_on fail (say stream_error s)
    else send_size link memory reply file server_name (to_int (pos (length file.contents))) s
