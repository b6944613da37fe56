-- ===== src/Transfer/Server.antt =====
-- One connection of the server ex5/srftp.cpp: `readFromClient` and `getMsgFromClient`.
use os_huji.Prelude.{
  Bool, true, false, Option, none, some, List, [], ◌∷◌, ◌++◌, length, ltb, if◌then◌else◌, ℤ, pos,
  negsuc, success, fail, c_string,
}
use os_huji.Prelude.Numbers.{Text, atoi, to_string}

-- What a call of `recv` returns: -1, or the bytes, none of them at the end of the stream.
pub data Recv : Type 0 where
  recv_failed : Recv
  received : Text → Recv

-- The outcome for the client: the file that was written, with its name, and the value of the call.
-- `quits` is `pthread_exit`, and `over_read` a text without a zero in the whole buffer.
pub data Served : Type 0 where
  returns : ℤ → Option (Text × Text) → Served
  quits over_read : Served

-- The answer that the client gets comes first, if there is one.
pub record Connection : Type 0 where
  pub answer : Option Text
  pub served : Served

-- The machine: the limit of the program, whether `send` fails, and which names can be opened.
pub record Host : Type 0 where
  pub max_file_size : ℤ
  pub send_fails : Bool
  pub opens : Text → Bool

abbrev pub next : List Recv → Recv × List Recv
next [] = (received [], [])
next (r ∷ rs) = (r, rs)

-- `tmp << buff`: the buffer of BUFF_SIZE bytes was zero before `recv`.
unfoldable pub text_of : Text → Option Text
text_of bs = if ltb (length (c_string bs)) 1024 then some (c_string bs) else none

-- `a > b` on numbers with a sign.
abbrev pub greater : ℤ → ℤ → Bool
greater (pos a) (pos b) = ltb b a
greater (pos a) (negsuc b) = true
greater (negsuc a) (pos b) = false
greater (negsuc a) (negsuc b) = ltb a b

-- The loop of the DATA_CASE of `getMsgFromClient`: an error ends it as the end of the stream does.
unfoldable pub get_data : List Recv → Text
get_data [] = []
get_data (recv_failed ∷ rs) = []
get_data (received [] ∷ rs) = []
get_data (received (b ∷ bs) ∷ rs) = (b ∷ bs) ++ get_data rs

-- A file that cannot be opened is not written.
abbrev pub saved : Host → Text → Text → Served
saved host name bytes = returns success (if host.opens name then some (name, bytes) else none)

-- The file behind the name. The first buffer is put into `tmp` as well, like that of the other
-- cases, though it need not hold a zero.
unfoldable pub write_file : Host → Text → List Recv → Served
write_file host name rs = elim (next rs).0 [
  | recv_failed ↦ saved host name []
  | received bs ↦ elim (text_of bs) [ none ↦ over_read | some _ ↦ saved host name (get_data rs) ]
]

-- From the NAME_CASE on.
unfoldable pub get_name : Host → List Recv → Served
get_name host rs =
    let (r, rest) = next rs in
    elim r [
      | recv_failed ↦ returns fail none
      | received bs ↦ elim (text_of bs) [ none ↦ over_read | some name ↦ write_file host name rest ]
    ]

-- ERROR or SUCCESS
abbrev pub answer_to : Host → ℤ → Text
answer_to host size = if greater size host.max_file_size then to_string 1 else to_string 0

unfoldable pub read_from_client : Host → List Recv → Connection
read_from_client host rs =
    let (r, rest) = next rs in
    elim r [
      | recv_failed ↦ record { answer = none; served = returns fail none }
      | received bs ↦ elim (text_of bs) [
        | none ↦ record { answer = none; served = over_read }
        | some text ↦
            if host.send_fails
            then record { answer = none; served = quits }
            else record { answer = some (answer_to host (atoi text)); served = get_name host rest }
      ]
    ]
