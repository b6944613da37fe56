-- ===== src/Transfer/Tests.antt =====
-- Concrete runs of the programs of ex5.
mod Loops
use os_huji.Prelude.{
  map, if◌then◌else◌, ◌==◌, ℕ, zero, suc, ◌<◌, ◌≤◌, ◌≡◌, ◌↔◌, refl, true, false, none, some, List,
  [], ◌∷◌, length, All, pos, success, ZeroFree, c_string, arith, replicate, length-replicate, Bool,
  assign, ◌^◌,
}
use os_huji.Prelude.Numbers.{Text, atoi, to_string}
use os_huji.Transfer.Numbers.{is_integer}
use os_huji.Transfer.Client.{
  Session, goes_on, exits, InFile, Link, reply_byte, Memory, say, too_big, send_blocks,
  write_to_server,
}
use os_huji.Transfer.Server.{received, Host, returns, over_read, read_from_client, text_of}
use os_huji.Transfer.Main.{
  Sockets, Server, serves, server_arguments, server_main, connect_to_client, client_main,
}
use os_huji.Transfer.Threads.{run_client, accepts, begins, Loop, again, turn, turns}
use os_huji.Transfer.Decimal.{atoi-to_string}
use os_huji.Transfer.Numerals.{is_integer-iff-IsNumeral, IsNumeral, IsDigits}
use os_huji.Transfer.Chunks.{concat, IsBlock, Whole, sent, Blocks, send_blocks-Blocks}
use os_huji.Transfer.Saving.{FirstFits, read_from_client-over_read}
use os_huji.Transfer.Delivery.{Readable}
use os_huji.Transfer.EndToEnd.{arrivals, reply_of, transfer-accepted, transfer-refused}
use os_huji.Transfer.Arguments.{server_arguments-digits, server_main-serves, client_main-transfers}
use os_huji.Transfer.Races.{paced, turns-unserved, reads}
use os_huji.Transfer.Serving.{Upload, IsFine, saved_upload, threads_save}
use os_huji.Transfer.Descriptors.{IsSafe, turns-IsSafe}

abbrev good_link : Link
good_link = record { send_fails = λ k. false; send_takes = λ k n. n }

good_link-Whole : Whole good_link
good_link-Whole = record { works = λ k. refl; takes = λ k n. refl }

abbrev memory : Memory
memory = record { stale = 0; behind = 0 ∷ [] }

abbrev file : InFile
file = record { good = true; contents = 0 ∷ 200 ∷ 10 ∷ []; seek_good = true }

file-Readable : Readable file
file-Readable = record { good = refl; seek_good = refl; fits = omega arith }

abbrev pub name : Text
name = b'a' ∷ b'b' ∷ []

abbrev fresh : Session
fresh = record { wire = []; printed = [] }

abbrev pub host : ℕ → Host
host max = record { max_file_size = pos max; send_fails = false; opens = λ s. not_empty s }
  where
    not_empty : Text → Bool
    not_empty [] = false
    not_empty (c ∷ s) = true

is_integer-iff-IsNumeral_example :
    (is_integer (b'-' ∷ b'7' ∷ []) ≡ true) ↔ IsNumeral (b'-' ∷ b'7' ∷ [])
is_integer-iff-IsNumeral_example = is_integer-iff-IsNumeral (b'-' ∷ b'7' ∷ [])

abbrev long_file : Text
long_file = replicate 2500 7

long_file-length : length long_file ≡ 2500
long_file-length = length-replicate {A = ℕ} 2500 7

send_blocks-Blocks_example :
    (pieces : List Text) × (send_blocks good_link long_file 2 0 2500 fresh
      ≡ goes_on tt (sent pieces fresh))
    × Blocks long_file 0 2500 pieces
send_blocks-Blocks_example =
    send_blocks-Blocks good_link long_file 2 0 2500 fresh good_link-Whole refl
      (omega (arith, long_file-length))

abbrev pub two_pieces : List Text
two_pieces = (0 ∷ []) ∷ (200 ∷ 10 ∷ []) ∷ []

pub two_pieces-blocks : All IsBlock two_pieces
two_pieces-blocks = ((omega arith, omega arith), ((omega arith, omega arith), tt))

pub two_pieces-fits : FirstFits two_pieces
unfolding text_of c_string
two_pieces-fits = ground arith

pub name-ZeroFree : ZeroFree name
name-ZeroFree = ground arith

transfer-accepted_example :
    (pieces : List Text) × (write_to_server good_link memory
        (reply_of (read_from_client (host 100) (arrivals file name two_pieces)).answer)
        file
        name
        fresh
      ≡ goes_on success (sent (to_string 3 ∷ name ∷ pieces) fresh))
    × (concat pieces ≡ 0 ∷ 200 ∷ 10 ∷ [])
    × ((read_from_client (host 100) (arrivals file name two_pieces)).served
        ≡ returns success (some (name, 0 ∷ 200 ∷ 10 ∷ [])))
transfer-accepted_example =
    transfer-accepted good_link memory (host 100) file name fresh 100 two_pieces good_link-Whole
      refl file-Readable refl (omega arith) refl refl name-ZeroFree (omega arith) refl
      two_pieces-blocks two_pieces-fits

transfer-refused_example :
    (write_to_server good_link memory
        (reply_of (read_from_client (host 2) (received (to_string 3) ∷ [])).answer)
        file
        name
        fresh
      ≡ exits 1 (say too_big (sent (to_string 3 ∷ []) fresh)))
    × ((read_from_client (host 2) (received (to_string 3) ∷ [])).served ≡ returns success none)
transfer-refused_example =
    transfer-refused good_link memory (host 2) file name fresh 2 good_link-Whole refl file-Readable
      refl (omega arith) refl refl

replicate-ZeroFree : (n : ℕ) → ZeroFree (replicate n 65)
replicate-ZeroFree zero = tt
replicate-ZeroFree (suc n) = (ground arith, replicate-ZeroFree n)

read_from_client-over_read_example :
    (read_from_client
      (host 9000)
      (received (to_string 2048) ∷ received name ∷ received (replicate 1024 65) ∷ [])).served
    ≡ over_read
read_from_client-over_read_example =
    read_from_client-over_read (host 9000) 2048 name (replicate 1024 65) [] (omega arith) refl
      name-ZeroFree (omega arith) (replicate-ZeroFree 1024) (length-replicate {A = ℕ} 1024 65)

abbrev pub port : Text
port = b'8' ∷ b'0' ∷ []

abbrev wrapped : Text
wrapped = b'4' ∷ b'2' ∷ b'9' ∷ b'4' ∷ b'9' ∷ b'6' ∷ b'7' ∷ b'3' ∷ b'7' ∷ b'6' ∷ []

port-IsDigits : IsDigits port
port-IsDigits = ground arith

wrapped-IsDigits : IsDigits wrapped
wrapped-IsDigits = ground arith

server_arguments-digits_example :
    (server_arguments (name ∷ wrapped ∷ port ∷ []) ≡ some (pos 80, pos 80))
    ↔ ((1 ≤ 80) × (80 ≤ 65535) × (1 ≤ 80) × (80 < 2 ^ 31))
server_arguments-digits_example =
    server_arguments-digits name wrapped port wrapped-IsDigits port-IsDigits (omega arith)
      (omega arith)

abbrev sockets : Sockets
sockets = record {
  resolves = true;
  socket = some 3;
  binds = λ p. true;
  listens = true;
  connects = λ p. true;
}

abbrev listening : Server
listening = record { server_fd = pos 3; opened = 3 ∷ []; errors = [] }

port_80 : server_arguments (name ∷ port ∷ port ∷ []) ≡ some (pos 80, pos 80)
port_80 =
    (server_arguments-digits name port port port-IsDigits port-IsDigits (omega arith)
        (omega arith)).1
      (omega arith, omega arith, omega arith, omega arith)

port_80-serves : server_main sockets (name ∷ port ∷ port ∷ []) ≡ serves (pos 80) listening
unfolding server_main connect_to_client
port_80-serves = ground (arith, port_80)

server_main-serves_example :
    (p size fd : ℕ) × (pos 80 ≡ pos size)
    × (1 ≤ p)
    × (p ≤ 65535)
    × (1 ≤ size)
    × (size < 2 ^ 31)
    × (sockets.socket ≡ some fd)
    × (sockets.binds p ≡ true)
    × (sockets.listens ≡ true)
    × (listening ≡ record { server_fd = pos fd; opened = fd ∷ []; errors = [] })
server_main-serves_example =
    server_main-serves sockets (name ∷ port ∷ port ∷ []) (pos 80) listening port_80-serves

client_main-transfers_example :
    (pieces : List Text) × (client_main sockets good_link memory
        (reply_byte b'0')
        (λ p. file)
        (name ∷ port ∷ name ∷ name ∷ name ∷ [])
      ≡ goes_on success (record { wire = to_string 3 ∷ name ∷ pieces; printed = [] }))
    × Blocks file.contents 0 3 pieces
client_main-transfers_example =
    client_main-transfers sockets good_link memory (λ p. file) name port name name name 3
      good_link-Whole refl file-Readable port-IsDigits (omega arith) (omega arith) refl refl refl
