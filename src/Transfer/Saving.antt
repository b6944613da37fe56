-- ===== src/Transfer/Saving.antt =====
-- What the server of ex5/srftp.cpp saves of what it receives.
use os_huji.Prelude.{
  ℕ, ◌^◌, ◌<◌, ◌≡◌, ◌≢◌, refl, ap, true, false, none, some, List, [], ◌∷◌, ◌++◌, length, map, All,
  pos, success, c_string, ZeroFree, c_string_of_ZeroFree, arith,
}
use os_huji.Prelude.Numbers.{Text, to_string}
use os_huji.Transfer.Server.{
  Recv, received, Host, text_of, get_data, write_file, get_name, answer_to, read_from_client,
  returns, over_read,
}
use os_huji.Transfer.Decimal.{atoi-to_string, to_string-ZeroFree, to_string-length}
use os_huji.Transfer.Chunks.{concat, IsBlock}

-- The first piece of the data, if there is one, has a zero or leaves room for one.
abbrev pub FirstFits : List Text → Type 0
FirstFits [] = Unit
FirstFits (p ∷ ps) = text_of p ≢ none

pub text_of-ZeroFree : (p : Text) → ZeroFree p → length p < 1024 → text_of p ≡ some p
unfolding text_of
text_of-ZeroFree p free short = ground (arith, c_string_of_ZeroFree p free)

get_data-concat : (ps : List Text) → All IsBlock ps → get_data (map received ps) ≡ concat ps
unfolding get_data
get_data-concat [] h = refl
get_data-concat ([] ∷ ps) h = absurd (omega (arith, h.0.0))
get_data-concat ((b ∷ p) ∷ ps) h = ap (λ q. (b ∷ p) ++ q) (get_data-concat ps h.1)

write_file-saves :
    (host : Host) (name : Text) (ps : List Text)
    → host.opens name ≡ true
    → All IsBlock ps
    → FirstFits ps
    → write_file host name (map received ps) ≡ returns success (some (name, concat ps))
unfolding write_file text_of get_data c_string
write_file-saves host name [] opens blocks fits = ground arith
write_file-saves host name (p ∷ ps) opens blocks fits =
    ground (arith, get_data-concat (p ∷ ps) blocks)

-- The server takes the first piece that it receives behind the size for the name, and saves under it
-- all pieces that follow, joined, until the stream ends. It does so whatever size was announced, even
-- one for which it has answered ERROR, and however long the data is. The size came in one piece, the
-- name is not empty, has no zero and leaves room in the buffer, the file can be opened, no piece is
-- empty or longer than the buffer, and the first one behind the name does not fill it without a zero.
pub read_from_client-saves :
    (host : Host) (n : ℕ) (name : Text) (ps : List Text)
    → n < 2 ^ 31
    → host.send_fails ≡ false
    → ZeroFree name
    → length name < 1024
    → host.opens name ≡ true
    → All IsBlock ps
    → FirstFits ps
    → read_from_client host (received (to_string n) ∷ received name ∷ map received ps) ≡ record {
      answer = some (answer_to host (pos n));
      served = returns success (some (name, concat ps));
    }
unfolding read_from_client get_name
read_from_client-saves host n name ps fits sends free short opens blocks first = ground (
  arith,
  text_of-ZeroFree (to_string n) (to_string-ZeroFree n) (omega (arith, to_string-length n)),
  text_of-ZeroFree name free short,
  atoi-to_string n fits,
  write_file-saves host name ps opens blocks first,
)

-- If a size that is an `int` and a name without a zero that leaves room in the buffer come each in
-- one piece, and the next piece fills the buffer without a zero, the server reads past the end of
-- the buffer, whatever follows.
pub read_from_client-over_read :
    (host : Host) (n : ℕ) (name p : Text) (rs : List Recv)
    → n < 2 ^ 31
    → host.send_fails ≡ false
    → ZeroFree name
    → length name < 1024
    → ZeroFree p
    → length p ≡ 1024
    → (read_from_client host (received (to_string n) ∷ received name ∷ received p ∷ rs)).served
      ≡ over_read
unfolding read_from_client get_name write_file text_of
read_from_client-over_read host n name p rs fits sends free short full size = ground (
  arith,
  text_of-ZeroFree (to_string n) (to_string-ZeroFree n) (omega (arith, to_string-length n)),
  c_string_of_ZeroFree (to_string n) (to_string-ZeroFree n),
  to_string-length n,
  c_string_of_ZeroFree name free,
  c_string_of_ZeroFree p full,
)
