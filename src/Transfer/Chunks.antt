-- ===== src/Transfer/Chunks.antt =====
-- The loop of `writeToServer` in ex5/clftp.cpp cuts the file into blocks.
use os_huji.Prelude.{
  append-nil, append_assoc, ℕ, zero, suc, ◌+◌, ◌-◌, ◌/◌, ◌<◌, ◌≤◌, ◌≡◌, refl, sym, ap, ◌∙◌, false,
  List, [], ◌∷◌, ◌++◌, length, take, drop, take_of_length-le, take-add, length-take, length-drop,
  All, ◌==◌, Bool-cases, inl, inr, arith,
}
use os_huji.Prelude.Numbers.{Text}
use os_huji.Transfer.Client.{Session, goes_on, Link, send_msg_to_server, send_last, send_blocks}

abbrev pub concat : List Text → Text
concat [] = []
concat (p ∷ ps) = p ++ concat ps

-- A blocking socket without errors takes every message whole.
pub record Whole (link : Link) : Type 0 where
  pub works : (k : ℕ) → link.send_fails k ≡ false
  pub takes : (k n : ℕ) → link.send_takes k n ≡ n

abbrev pub sent : List Text → Session → Session
sent msgs s = record s { wire = s.wire ++ msgs }

pub send_msg_to_server-Whole :
    (link : Link) (msg : Text) (s : Session)
    → Whole link
    → send_msg_to_server link msg s ≡ goes_on tt (sent (msg ∷ []) s)
unfolding send_msg_to_server
send_msg_to_server-Whole link msg s w = ground (
  arith,
  w.works (length s.wire),
  w.takes (length s.wire) (length msg),
  take_of_length-le (length msg) msg,
)

-- A block is never empty and fits into the buffer.
abbrev pub IsBlock : Text → Type 0
IsBlock p = (0 < length p) × (length p ≤ 1024)

-- The sum is a variable with an equation, as for `take-add`.
drop-add : (m n k : ℕ) (xs : Text) → n + m ≡ k → drop k xs ≡ drop m (drop n xs)
drop-add m zero k xs e = let q : k ≡ m = omega arith in rw q refl
drop-add m (suc n) zero xs e = absurd (omega arith)
drop-add zero (suc n) (suc k) [] e = refl
drop-add (suc m) (suc n) (suc k) [] e = refl
drop-add m (suc n) (suc k) (x ∷ xs) e = drop-add m n k xs (omega arith)

pub record Blocks (bytes : Text) (at left : ℕ) (pieces : List Text) : Type 0 where
  pub joined : concat pieces ≡ take left (drop at bytes)
  pub blocks : All IsBlock pieces
  pub number : length pieces ≡ (left + 1023) / 1024

send_last-Blocks :
    (link : Link) (bytes : Text) (at left : ℕ) (s : Session)
    → Whole link
    → left < 1024
    → at + left ≤ length bytes
    → (pieces : List Text) × (send_last link bytes at left s ≡ goes_on tt (sent pieces s))
      × Blocks bytes at left pieces
unfolding send_last
send_last-Blocks link bytes at left s w small inside = elim (Bool-cases (left == 0)) [
  | inl finished ↦
      let e : left ≡ 0 = ground arith in
      (
        [],
        ground (arith, append-nil s.wire),
        record { joined = rw e refl; blocks = tt; number = omega arith },
      )
  | inr more ↦
      let p = take left (drop at bytes) in
      let size : 0 < left = ground arith in
      (
        p ∷ [],
        ground (arith, send_msg_to_server-Whole link p s w),
        record {
          joined = append-nil p;
          blocks = (omega (arith, length-take left (drop at bytes), length-drop at bytes), tt);
          number = omega arith;
        },
      )
]

-- On a socket that takes messages whole, as many rounds as the bytes have full blocks are enough for
-- the loop to end. The messages that it and the lines behind it send are blocks of 1 to 1024 bytes,
-- as few as hold the bytes, and joined they are exactly the bytes of the file from `at` on.
pub send_blocks-Blocks :
    (link : Link) (bytes : Text) (fuel at left : ℕ) (s : Session)
    → Whole link
    → left / 1024 ≡ fuel
    → at + left ≤ length bytes
    → (pieces : List Text) × (send_blocks link bytes fuel at left s ≡ goes_on tt (sent pieces s))
      × Blocks bytes at left pieces
unfolding send_blocks
send_blocks-Blocks link bytes zero at left s w rounds inside =
    let (pieces, ran, b) = send_last-Blocks link bytes at left s w (omega arith) inside in
    (pieces, ground (arith, ran), b)
send_blocks-Blocks link bytes (suc fuel) at left s w rounds inside =
    let p = take 1024 (drop at bytes) in
    let (pieces, ran, b) =
      send_blocks-Blocks link bytes fuel (at + 1024) (left - 1024) (sent (p ∷ []) s) w (omega arith)
        (omega arith) in
    (
      p ∷ pieces,
      ground (arith, send_msg_to_server-Whole link p s w, ran, append_assoc s.wire (p ∷ []) pieces),
      record {
        joined =
            ap (λ q. p ++ q) b.joined
            ∙ ap (λ q. p ++ take (left - 1024) q) (drop-add 1024 at (at + 1024) bytes (omega arith))
            ∙ sym (take-add 1024 (left - 1024) left (drop at bytes) (omega arith));
        blocks = (omega (arith, length-take 1024 (drop at bytes), length-drop at bytes), b.blocks);
        number = omega (arith, b.number);
      },
    )
