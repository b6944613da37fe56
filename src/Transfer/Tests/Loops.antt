-- ===== src/Transfer/Tests/Loops.antt =====
-- Runs of the accept loop and the threads of ex5/srftp.cpp.
use os_huji.Prelude.{
  map, if◌then◌else◌, ◌==◌, ℕ, ◌≡◌, refl, true, List, [], ◌∷◌, pos, arith, assign,
}
use os_huji.Prelude.Numbers.{to_string}
use os_huji.Transfer.Server.{Recv, received}
use os_huji.Transfer.Threads.{
  run_client, accepting, Event, accepts, inserts, creates, begins, Loop, again, accepted, turn,
  turns,
}
use os_huji.Transfer.Races.{paced, turns-unserved, reads}
use os_huji.Transfer.Serving.{Upload, saved_upload, threads_save}
use os_huji.Transfer.Descriptors.{IsSafe, turns-IsSafe}
use os_huji.Transfer.Tests.{
  name, host, two_pieces, port, two_pieces-blocks, two_pieces-fits, name-ZeroFree,
}

abbrev idle : Loop
idle = record {
  place = accepting;
  client_fd = pos 0;
  clients = [];
  objects = 0;
  waiting = 0;
  read = [];
}

abbrev twice : Loop
twice = record {
  place = accepting;
  client_fd = pos 5;
  clients = (4, 0) ∷ (5, 1) ∷ [];
  objects = 2;
  waiting = 0;
  read = pos 5 ∷ pos 5 ∷ [];
}

abbrev second_accepted : List Event
second_accepted = inserts ∷ begins ∷ creates true ∷ begins ∷ []

abbrev both_accepted : List Event
both_accepted = accepts 4 ∷ inserts ∷ creates true ∷ accepts 5 ∷ second_accepted

twice_run : turns both_accepted idle ≡ again twice
unfolding turns turn accepted assign
twice_run = refl

turns-unserved_example : reads 4 (pos 5 ∷ pos 5 ∷ []) ≡ reads 4 []
turns-unserved_example =
    turns-unserved 4 5 second_accepted idle twice refl (ground arith) (tt, (tt, (tt, (tt, tt))))
      twice_run

turns-IsSafe_example : IsSafe twice
turns-IsSafe_example =
    turns-IsSafe both_accepted idle twice
      (record { variable = λ h. absurd (omega (arith, h)); taken = tt }) twice_run

abbrev first_upload : Upload
first_upload = record { fd = 4; size = 3; name = name; pieces = two_pieces }

abbrev second_upload : Upload
second_upload = record { fd = 5; size = 0; name = port; pieces = [] }

abbrev streams : ℕ → List Recv
streams fd =
    if fd == 4
    then received (to_string 3) ∷ received name ∷ map received two_pieces
    else received (to_string 0) ∷ received port ∷ []

threads_save_example :
    (l2 : Loop) × (turns (paced (4 ∷ 5 ∷ [])) idle ≡ again l2)
    × (map (run_client (host 2) streams) l2.read
        ≡ saved_upload (host 2) first_upload ∷ saved_upload (host 2) second_upload ∷ [])
threads_save_example =
    threads_save (host 2) streams (first_upload ∷ second_upload ∷ []) idle refl
      (
        record {
          not_zero = omega arith;
          stream = refl;
          fits = omega arith;
          free = name-ZeroFree;
          short = omega arith;
          opens = refl;
          blocks = two_pieces-blocks;
          first = two_pieces-fits;
        },
        (
          record {
            not_zero = omega arith;
            stream = refl;
            fits = omega arith;
            free = ground arith;
            short = omega arith;
            opens = refl;
            blocks = tt;
            first = tt;
          },
          tt,
        ),
      )
      refl refl refl
