-- ===== src/Transfer/Arguments.antt =====
-- Which arguments the programs of ex5/srftp.cpp and ex5/clftp.cpp accept, and what they do with them.
use os_huji.Prelude.{
  ℕ, ◌-◌, ◌^◌, ◌%◌, ◌<◌, ◌≤◌, ◌≡◌, refl, ◌↔◌, true, false, some, Option-cases, List, [], ◌∷◌,
  length, inl, inr, ℤ, pos, negsuc, success, arith,
}
use os_huji.Prelude.Numbers.{Text, atoi, strtol, to_int, signed32, to_string, starts_with_digit}
use os_huji.Transfer.Numbers.{is_integer}
use os_huji.Transfer.Decimal.{strtol-digit}
use os_huji.Transfer.Numerals.{
  IsDigits, value, scan-value, IsDigits-starts, is_integer-iff-IsNumeral,
}
use os_huji.Transfer.Client.{Session, goes_on, InFile, Link, reply_byte, Memory}
use os_huji.Transfer.Server.{greater}
use os_huji.Transfer.Chunks.{Whole, Blocks}
use os_huji.Transfer.Delivery.{Readable, write_to_server-accepted}
use os_huji.Transfer.Main.{
  is_port, server_arguments, client_arguments, short, Sockets, Server, serves, connect_to_client,
  connect_to_server, server_main, client_main,
}

-- Digits within a `long` are read as its lower 32 bits.
pub atoi-wraps :
    (s : Text) → IsDigits s → value 0 s < 2 ^ 63 → atoi s ≡ signed32 (value 0 s % 2 ^ 32)
unfolding atoi
atoi-wraps s d fits = ground (arith, strtol-digit s (IsDigits-starts s d), scan-value 0 s d.1)

is_integer_digits : (s : Text) → IsDigits s → is_integer s ≡ true
is_integer_digits [] d = absurd (d.0 refl)
is_integer_digits (c ∷ s) d = (is_integer-iff-IsNumeral (c ∷ s)).1 (inl d)

is_port-digits :
    (s : Text)
    → IsDigits s
    → value 0 s < 2 ^ 63
    → (is_port s ≡ true) ↔ ((1 ≤ value 0 s % 2 ^ 32) × (value 0 s % 2 ^ 32 ≤ 65535))
is_port-digits s d fits = ground (arith, is_integer_digits s d, atoi-wraps s d fits)

signed32-bound : (w : ℕ) → (n : ℕ) → signed32 w ≡ pos n → n < 2 ^ 31
signed32-bound w n h = ground arith

to_int-bound : (z : ℤ) (n : ℕ) → to_int z ≡ pos n → n < 2 ^ 31
to_int-bound (pos m) n h = signed32-bound (m % 2 ^ 32) n h
to_int-bound (negsuc m) n h = signed32-bound (2 ^ 32 - 1 - m % 2 ^ 32) n h

atoi-bound : (s : Text) (n : ℕ) → atoi s ≡ pos n → n < 2 ^ 31
unfolding atoi
atoi-bound s n h = to_int-bound (strtol s).0 n h

port_of :
    (z : ℤ)
    → greater z (pos 65535) ≡ false
    → greater (pos 1) z ≡ false
    → (n : ℕ) × (z ≡ pos n) × (1 ≤ n) × (n ≤ 65535)
port_of (pos n) upper lower = (n, refl, ground arith, ground arith)
port_of (negsuc n) upper lower = absurd (ground arith)

size_of : (z : ℤ) → greater z (pos 0) ≡ true → (n : ℕ) × (z ≡ pos n) × (1 ≤ n)
size_of (pos n) h = (n, refl, ground arith)
size_of (negsuc n) h = absurd (ground arith)

is_port-bounds : (s : Text) → is_port s ≡ true → (n : ℕ) × (atoi s ≡ pos n) × (1 ≤ n) × (n ≤ 65535)
is_port-bounds s h = port_of (atoi s) (ground arith) (ground arith)

-- What the server accepts is in range.
pub server_arguments-bounds :
    (argv : List Text) (p m : ℤ)
    → server_arguments argv ≡ some (p, m)
    → (port size : ℕ) × (p ≡ pos port)
      × (1 ≤ port)
      × (port ≤ 65535)
      × (short p ≡ port)
      × (m ≡ pos size)
      × (1 ≤ size)
      × (size < 2 ^ 31)
      × (length argv ≡ 3)
unfolding server_arguments
server_arguments-bounds [] p m h = absurd (ground arith)
server_arguments-bounds (a ∷ []) p m h = absurd (ground arith)
server_arguments-bounds (a ∷ b ∷ []) p m h = absurd (ground arith)
server_arguments-bounds (a ∷ b ∷ c ∷ d ∷ rest) p m h = absurd (ground arith)
server_arguments-bounds (a ∷ b ∷ c ∷ []) p m h =
    let (port, e, low, high) = is_port-bounds b (ground arith) in
    let (size, f, positive) = size_of (atoi c) (ground arith) in
    (
      port,
      size,
      ground arith,
      low,
      high,
      ground arith,
      ground arith,
      positive,
      atoi-bound c size f,
      refl,
    )

-- Two arguments of digits, of which both spell numbers below 2^63, are accepted, and read as their
-- lower 32 bits, if and only if those bits of the first are a port from 1 to 65535 and those of the
-- second a number from 1 to 2^31-1.
pub server_arguments-digits :
    (program ps ms : Text)
    → IsDigits ps
    → IsDigits ms
    → value 0 ps < 2 ^ 63
    → value 0 ms < 2 ^ 63
    → (server_arguments (program ∷ ps ∷ ms ∷ [])
        ≡ some (pos (value 0 ps % 2 ^ 32), pos (value 0 ms % 2 ^ 32)))
      ↔ ((1 ≤ value 0 ps % 2 ^ 32)
          × (value 0 ps % 2 ^ 32 ≤ 65535)
          × (1 ≤ value 0 ms % 2 ^ 32)
          × (value 0 ms % 2 ^ 32 < 2 ^ 31))
unfolding server_arguments
server_arguments-digits program ps ms d e fits fits2 = ground (
  arith,
  is_integer_digits ps d,
  is_integer_digits ms e,
  atoi-wraps ps d fits,
  atoi-wraps ms e fits2,
)

-- If the server comes to its loop, then with a limit from 1 to 2^31-1 and with a socket that was
-- bound to a port from 1 to 65535 and listens; that is the only socket that it holds open, and no
-- error was printed.
pub server_main-serves :
    (k : Sockets) (argv : List Text) (m : ℤ) (s : Server)
    → server_main k argv ≡ serves m s
    → (port size fd : ℕ) × (m ≡ pos size)
      × (1 ≤ port)
      × (port ≤ 65535)
      × (1 ≤ size)
      × (size < 2 ^ 31)
      × (k.socket ≡ some fd)
      × (k.binds port ≡ true)
      × (k.listens ≡ true)
      × (s ≡ record { server_fd = pos fd; opened = fd ∷ []; errors = [] })
unfolding server_main connect_to_client
server_main-serves k argv m s h = elim (Option-cases (server_arguments argv)) [
  | inl e ↦ absurd (ground (arith, e))
  | inr ((p, q), e) ↦
      let (port, size, ep, low, high, es, em, positive, small, l) =
        server_arguments-bounds argv p q e in
      elim (Option-cases k.socket) [
        | inl none_free ↦ absurd (ground (arith, e, none_free))
        | inr (fd, got) ↦ (
          port,
          size,
          fd,
          ground (arith, e, got, h),
          low,
          high,
          positive,
          small,
          got,
          ground (arith, e, got, h, es),
          ground (arith, e, got, h),
          ground (arith, e, got, h),
        )
      ]
]

-- On five arguments with a port that is spelled by digits and lies between 1 and 65535, where the
-- host resolves, the socket connects and takes messages whole, the file is readable, the answer is
-- the character 0 and no digit stands behind it in memory, the client returns SUCCESS. It has then
-- sent the size, the name and the blocks of the file, and printed nothing.
pub client_main-transfers :
    (k : Sockets) (link : Link) (memory : Memory) (files : Text → InFile)
    (program port host path name : Text) (fd : ℕ)
    → Whole link
    → starts_with_digit memory.behind ≡ false
    → Readable (files path)
    → IsDigits port
    → 1 ≤ value 0 port
    → value 0 port ≤ 65535
    → k.resolves ≡ true
    → k.socket ≡ some fd
    → k.connects (value 0 port) ≡ true
    → (pieces : List Text) × (client_main k link memory
          (reply_byte b'0')
          files
          (program ∷ port ∷ host ∷ path ∷ name ∷ [])
        ≡ goes_on success (record {
          wire = to_string (length (files path).contents) ∷ name ∷ pieces;
          printed = [];
        }))
      × Blocks (files path).contents 0 (length (files path).contents) pieces
unfolding client_main client_arguments connect_to_server
client_main-transfers k link memory files program port host path name fd w clean r d low high
      resolves socket connects =
    let s0 : Session = record { wire = []; printed = [] } in
    let (pieces, ran, b) = write_to_server-accepted link memory (files path) name s0 w r clean in
    (
      pieces,
      ground (
        arith,
        is_integer_digits port d,
        atoi-wraps port d (omega arith),
        resolves,
        socket,
        connects,
        ran,
      ),
      b,
    )
