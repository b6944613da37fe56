-- ===== src/Transfer/Delivery.antt =====
-- The client of ex5/clftp.cpp and the server of ex5/srftp.cpp together.
use os_huji.Prelude.{
  append_assoc, ℕ, ◌-◌, ◌/◌, ◌^◌, ◌<◌, ◌≡◌, refl, true, false, List, [], ◌∷◌, length, pos, success,
  fail, arith,
}
use os_huji.Prelude.Numbers.{Text, atoi, to_string, starts_with_digit, scan, is_digit, to_int}
use os_huji.Transfer.Client.{
  Session, goes_on, exits, InFile, Link, reply_byte, Memory, say, too_big, receive_msg, send_file,
  send_size, write_to_server,
}
use os_huji.Transfer.Decimal.{strtol-digit}
use os_huji.Transfer.Chunks.{Whole, sent, Blocks, send_msg_to_server-Whole, send_blocks-Blocks}

-- A file that opens, and whose size is an `int`.
pub record Readable (file : InFile) : Type 0 where
  pub good : file.good ≡ true
  pub seek_good : file.seek_good ≡ true
  pub fits : length file.contents < 2 ^ 31

scan_stops : (n : ℕ) (s : Text) → starts_with_digit s ≡ false → scan n s ≡ (n, s)
unfolding scan
scan_stops n [] h = refl
scan_stops n (c ∷ s) h = ground arith

-- One digit in front of memory that holds no other.
atoi_one :
    (c : ℕ) (behind : Text)
    → is_digit c ≡ true
    → starts_with_digit behind ≡ false
    → atoi (c ∷ behind) ≡ pos (c - b'0')
unfolding atoi scan
atoi_one c behind h e = ground (arith, strtol-digit (c ∷ behind) h, scan_stops (c - b'0') behind e)

receive_msg-accepted :
    (memory : Memory) (s : Session)
    → starts_with_digit memory.behind ≡ false
    → receive_msg memory (reply_byte b'0') s ≡ (success, s)
unfolding receive_msg
receive_msg-accepted memory s clean = ground (arith, atoi_one b'0' memory.behind refl clean)

receive_msg-refused :
    (memory : Memory) (s : Session)
    → starts_with_digit memory.behind ≡ false
    → receive_msg memory (reply_byte b'1') s ≡ (fail, s)
unfolding receive_msg
receive_msg-refused memory s clean = ground (arith, atoi_one b'1' memory.behind refl clean)

-- The name and the pieces behind it.
send_file-sent :
    (link : Link) (file : InFile) (name : Text) (s : Session)
    → Whole link
    → (pieces : List Text) × (send_file link file name (length file.contents) s
        ≡ goes_on success (sent (name ∷ pieces) s))
      × Blocks file.contents 0 (length file.contents) pieces
unfolding send_file
send_file-sent link file name s w =
    let n = length file.contents in
    let s1 = sent (name ∷ []) s in
    let (pieces, ran, b) =
      send_blocks-Blocks link file.contents (n / 1024) 0 n s1 w refl (omega arith) in
    (
      pieces,
      ground (
        arith,
        send_msg_to_server-Whole link name s w,
        ran,
        append_assoc s.wire (name ∷ []) pieces,
      ),
      b,
    )

to_int_small : (n : ℕ) → n < 2 ^ 31 → to_int (pos n) ≡ pos n
to_int_small n h = ground arith

-- The client's part behind the size, when the answer is SUCCESS.
pub write_to_server-accepted :
    (link : Link) (memory : Memory) (file : InFile) (name : Text) (s : Session)
    → Whole link
    → Readable file
    → starts_with_digit memory.behind ≡ false
    → (pieces : List Text) × (write_to_server link memory (reply_byte b'0') file name s
        ≡ goes_on success (sent (to_string (length file.contents) ∷ name ∷ pieces) s))
      × Blocks file.contents 0 (length file.contents) pieces
unfolding write_to_server send_size
write_to_server-accepted link memory file name s w r clean =
    let n = length file.contents in
    let s1 = sent (to_string n ∷ []) s in
    let (pieces, ran, b) = send_file-sent link file name s1 w in
    (
      pieces,
      ground (
        arith,
        r.good,
        r.seek_good,
        to_int_small n r.fits,
        send_msg_to_server-Whole link (to_string n) s w,
        receive_msg-accepted memory s1 clean,
        ran,
        append_assoc s.wire (to_string n ∷ []) (name ∷ pieces),
      ),
      b,
    )

-- The client's part when the answer is ERROR.
pub write_to_server-refused :
    (link : Link) (memory : Memory) (file : InFile) (name : Text) (s : Session)
    → Whole link
    → Readable file
    → starts_with_digit memory.behind ≡ false
    → write_to_server link memory (reply_byte b'1') file name s
      ≡ exits 1 (say too_big (sent (to_string (length file.contents) ∷ []) s))
unfolding write_to_server send_size
write_to_server-refused link memory file name s w r clean =
    let n = length file.contents in
    let s1 = sent (to_string n ∷ []) s in
    ground (
      arith,
      r.good,
      r.seek_good,
      to_int_small n r.fits,
      send_msg_to_server-Whole link (to_string n) s w,
      receive_msg-refused memory s1 clean,
    )
