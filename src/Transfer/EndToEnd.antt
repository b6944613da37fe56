-- ===== src/Transfer/EndToEnd.antt =====
-- A whole transfer: the client of ex5/clftp.cpp against the server of ex5/srftp.cpp.
use os_huji.Prelude.{
  ℕ, ◌<◌, ◌≤◌, ◌≡◌, ap, sym, ◌∙◌, true, false, Option, none, some, List, [], ◌∷◌, length, map,
  take_of_length-le, All, pos, success, ZeroFree, arith, c_string,
}
use os_huji.Prelude.Numbers.{Text, to_string, digits, starts_with_digit}
use os_huji.Transfer.Client.{
  Session, goes_on, exits, InFile, Link, Reply, reply_byte, reply_closed, Memory, say, too_big,
  write_to_server,
}
use os_huji.Transfer.Server.{
  Recv, received, Host, returns, read_from_client, get_name, write_file, text_of, answer_to,
}
use os_huji.Transfer.Chunks.{concat, IsBlock, Whole, sent, Blocks}
use os_huji.Transfer.Saving.{FirstFits, read_from_client-saves, text_of-ZeroFree}
use os_huji.Transfer.Decimal.{atoi-to_string, to_string-ZeroFree, to_string-length}
use os_huji.Transfer.Delivery.{Readable, write_to_server-accepted, write_to_server-refused}

-- The client receives the first byte of the answer.
abbrev pub reply_of : Option Text → Reply
reply_of none = reply_closed
reply_of (some []) = reply_closed
reply_of (some (b ∷ bs)) = reply_byte b

-- What the server receives, when each message of the client arrives by itself and the data in
-- pieces of any sizes.
abbrev pub arrivals : InFile → Text → List Text → List Recv
arrivals file name ps =
    received (to_string (length file.contents)) ∷ received name ∷ map received ps

answer_to-small :
    (host : Host) (n max : ℕ)
    → host.max_file_size ≡ pos max
    → n ≤ max
    → answer_to host (pos n) ≡ b'0' ∷ []
unfolding to_string digits
answer_to-small host n max limit small = ground arith

answer_to-large :
    (host : Host) (n max : ℕ)
    → host.max_file_size ≡ pos max
    → max < n
    → answer_to host (pos n) ≡ b'1' ∷ []
unfolding to_string digits
answer_to-large host n max limit large = ground arith

whole_file :
    (bytes : Text) (pieces : List Text)
    → Blocks bytes 0 (length bytes) pieces
    → concat pieces ≡ bytes
whole_file bytes pieces b = b.joined ∙ take_of_length-le (length bytes) bytes (omega arith)

-- A file that opens, with a size that is an `int` and within the limit, is sent over a socket that
-- takes messages whole to a server that can answer and open the name; the name has no zero and
-- leaves room in the buffer. Size and name arrive each by itself and the data in any pieces of 1 to
-- 1024 bytes, of which the first has a zero or leaves room for one; no digit stands in memory
-- behind the byte of the answer. Then the answer of the server makes the client return SUCCESS,
-- having sent the size, the name and blocks that join to the same bytes as the pieces, and the
-- server saves exactly the contents under the name.
pub transfer-accepted :
    (link : Link) (memory : Memory) (host : Host) (file : InFile) (name : Text) (s : Session)
    (max : ℕ) (ps : List Text)
    → Whole link
    → starts_with_digit memory.behind ≡ false
    → Readable file
    → host.max_file_size ≡ pos max
    → length file.contents ≤ max
    → host.send_fails ≡ false
    → host.opens name ≡ true
    → ZeroFree name
    → length name < 1024
    → concat ps ≡ file.contents
    → All IsBlock ps
    → FirstFits ps
    → (pieces : List Text) × (write_to_server link memory
          (reply_of (read_from_client host (arrivals file name ps)).answer)
          file
          name
          s
        ≡ goes_on success (sent (to_string (length file.contents) ∷ name ∷ pieces) s))
      × (concat pieces ≡ concat ps)
      × ((read_from_client host (arrivals file name ps)).served
          ≡ returns success (some (name, file.contents)))
transfer-accepted link memory host file name s max ps w clean r limit small sends opens free short
      whole blocks first =
    let n = length file.contents in
    let saves = read_from_client-saves host n name ps r.fits sends free short opens blocks first in
    let (pieces, ran, b) = write_to_server-accepted link memory file name s w r clean in
    let answer : (read_from_client host (arrivals file name ps)).answer ≡ some (b'0' ∷ []) =
      ap (λ c. c.answer) saves ∙ ap some (answer_to-small host n max limit small) in
    (
      pieces,
      (rw answer ran),
      whole_file file.contents pieces b ∙ sym whole,
      ap (λ c. c.served) saves ∙ ap (λ q. returns success (some (name, q))) whole,
    )

-- For a readable file above the limit, over a socket that takes messages whole, with no digit in
-- memory behind the answer, the server answers so that the client prints its message and exits with
-- 1, having sent only the size. The stream then ends, and the server returns SUCCESS without saving
-- anything, if the empty name cannot be opened.
pub transfer-refused :
    (link : Link) (memory : Memory) (host : Host) (file : InFile) (name : Text) (s : Session)
    (max : ℕ)
    → Whole link
    → starts_with_digit memory.behind ≡ false
    → Readable file
    → host.max_file_size ≡ pos max
    → max < length file.contents
    → host.send_fails ≡ false
    → host.opens [] ≡ false
    → (write_to_server link memory
          (reply_of
            (read_from_client host (received (to_string (length file.contents)) ∷ [])).answer)
          file
          name
          s
        ≡ exits 1 (say too_big (sent (to_string (length file.contents) ∷ []) s)))
      × ((read_from_client host (received (to_string (length file.contents)) ∷ [])).served
          ≡ returns success none)
unfolding read_from_client get_name write_file text_of c_string
transfer-refused link memory host file name s max w clean r limit large sends opens =
    let n = length file.contents in
    let ran = write_to_server-refused link memory file name s w r clean in
    let text =
      text_of-ZeroFree (to_string n) (to_string-ZeroFree n) (omega (arith, to_string-length n)) in
    let number = atoi-to_string n r.fits in
    let answer = answer_to-large host n max limit large in
    (ground (arith, text, number, answer, sends, ran), ground (arith, text, number, sends, opens))
