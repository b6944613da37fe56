-- ===== src/Transfer/Serving.antt =====
-- The threads of ex5/srftp.cpp with their clients, when none is overtaken.
use os_huji.Prelude.{
  ℕ, ◌^◌, ◌<◌, ◌≡◌, refl, ap, ◌∙◌, true, false, some, List, [], ◌∷◌, ◌++◌, length, map, All, pos,
  success, ZeroFree,
}
use os_huji.Prelude.Numbers.{Text, to_string}
use os_huji.Transfer.Server.{Recv, received, returns, Connection, Host, answer_to, read_from_client}
use os_huji.Transfer.Chunks.{concat, IsBlock}
use os_huji.Transfer.Saving.{FirstFits, read_from_client-saves}
use os_huji.Transfer.Threads.{accepting, Loop, again, turns, run_client}
use os_huji.Transfer.Races.{paced, turns-paced}

-- A client that announces a size and sends a name and data.
pub record Upload : Type 0 where
  pub fd : ℕ
  pub size : ℕ
  pub name : Text
  pub pieces : List Text

-- What the server needs of a client to save its data.
pub record IsFine (host : Host) (streams : ℕ → List Recv) (u : Upload) : Type 0 where
  pub not_zero : 0 < u.fd
  pub stream : streams u.fd ≡ received (to_string u.size) ∷ received u.name ∷ map received u.pieces
  pub fits : u.size < 2 ^ 31
  pub free : ZeroFree u.name
  pub short : length u.name < 1024
  pub opens : host.opens u.name ≡ true
  pub blocks : All IsBlock u.pieces
  pub first : FirstFits u.pieces

abbrev pub saved_upload : Host → Upload → Connection
saved_upload host u = record {
  answer = some (answer_to host (pos u.size));
  served = returns success (some (u.name, concat u.pieces));
}

run_client-saves :
    (host : Host) (streams : ℕ → List Recv) (u : Upload)
    → host.send_fails ≡ false
    → IsFine host streams u
    → run_client host streams (pos u.fd) ≡ saved_upload host u
unfolding run_client
run_client-saves host streams u sends f =
    ap (read_from_client host) f.stream
    ∙ read_from_client-saves host u.size u.name u.pieces f.fits sends f.free f.short f.opens
        f.blocks f.first

runs-save :
    (host : Host) (streams : ℕ → List Recv) (us : List Upload)
    → host.send_fails ≡ false
    → All (IsFine host streams) us
    → map (run_client host streams) (map pos (map (λ u. u.fd) us)) ≡ map (saved_upload host) us
runs-save host streams [] sends fs = refl
runs-save host streams (u ∷ us) sends fs =
    ap (λ c. c ∷ map (run_client host streams) (map pos (map (λ v. v.fd) us)))
      (run_client-saves host streams u sends fs.0)
    ∙ ap (◌∷◌ (saved_upload host u)) (runs-save host streams us sends fs.1)

not_zeros :
    (host : Host) (streams : ℕ → List Recv) (us : List Upload)
    → All (IsFine host streams) us
    → All (λ n. 0 < n) (map (λ u. u.fd) us)
not_zeros host streams [] fs = tt
not_zeros host streams (u ∷ us) fs = (fs.0.not_zero, not_zeros host streams us fs.1)

-- When the threads of a server that can answer begin each before the next client is accepted, from
-- a loop at `accept` in which none waits or has begun, every client gets its answer and its file: in the order
-- of the clients, the threads have saved the data that each sent, joined, under the name that it
-- sent. Each client has a descriptor other than 0, announces an `int`, and sends a name without a
-- zero that leaves room in the buffer and can be opened, and data in pieces of 1 to 1024 bytes of
-- which the first has a zero or leaves room for one, all arriving apart.
pub threads_save :
    (host : Host) (streams : ℕ → List Recv) (us : List Upload) (l : Loop)
    → host.send_fails ≡ false
    → All (IsFine host streams) us
    → l.place ≡ accepting
    → l.waiting ≡ 0
    → l.read ≡ []
    → (l2 : Loop) × (turns (paced (map (λ u. u.fd) us)) l ≡ again l2)
      × (map (run_client host streams) l2.read ≡ map (saved_upload host) us)
threads_save host streams us l sends fs at_accept idle unread =
    let (l2, ran, rest, reads) =
      turns-paced (map (λ u. u.fd) us) l (not_zeros host streams us fs) at_accept idle in
    (
      l2,
      ran,
      ap (map (run_client host streams))
            (reads ∙ ap (λ zs. zs ++ map pos (map (λ u. u.fd) us)) unread)
          ∙ runs-save host streams us sends fs,
    )
