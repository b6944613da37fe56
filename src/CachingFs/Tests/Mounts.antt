-- ===== src/CachingFs/Tests/Mounts.antt =====
-- Runs of the mounted file system of ex4/CachingFileSystem.cpp.
use os_huji.Prelude.{
  ◌≡◌, refl, true, false, none, some, List, [], ◌∷◌, ◌++◌, length, get_elem?, if◌then◌else◌,
  success, arith,
}
use os_huji.Prelude.Numbers.{Text, minus, atoi, strtol, skip_spaces, scan}
use os_huji.CachingFs.Block.{CacheBlock, done, same_string, new_block}
use os_huji.CachingFs.Cache.{
  is_in_cache, is_in_cache_from, holds, caching_rename, caching_init, ioctl_rows,
}
use os_huji.CachingFs.Read.{
  bytes, caching_read, rounds, loop_extent, read_loop, read_round, fetch_block, store_read,
}
use os_huji.CachingFs.Stale.{caching_rename-stale}
use os_huji.CachingFs.Session.{
  Files, Request, reads, renames, got, renamed, missing, directly, cached, Legal,
}
use os_huji.CachingFs.Start.{
  Settings, mounts, caching_main, positive_number, set_paths, log_name, caching_main-refines,
}
use os_huji.CachingFs.System.{
  refuses, gives, System, Mount, called, initialising, opendir, renaming, reading, fgetattr, ioctl,
  destroy, unable_to_rename, full_path, write_to_log, new_address, put_object,
}
use os_huji.CachingFs.Handlers.{
  ends, handle, names, nothing, caching_opendir, caching_readdir, caching_releasedir, caching_ioctl,
  caching_destroy, init_handler, log_rows, rename_handler, read_handler, caching_fgetattr,
}
use os_huji.CachingFs.Mounted.{
  Operation, open_directory, rename_file, read_file, control, operate, operations, mounted,
}
use os_huji.CachingFs.Frames.{Extends, handlers}
use os_huji.CachingFs.Kept.{SparesLog}
use os_huji.CachingFs.Lasting.{mounted-Lasting}
use os_huji.CachingFs.Directory.{directory_session}

abbrev path_a : Text
path_a = b'/' ∷ b'a' ∷ []

abbrev path_b : Text
path_b = b'/' ∷ b'b' ∷ []

abbrev two : Text
two = b'2' ∷ []

abbrev files : Files
files p = if same_string p path_a then some (1 ∷ 2 ∷ 3 ∷ 4 ∷ 5 ∷ []) else none

abbrev settings : Settings
settings = record {
  root_path = path_b;
  log_path = path_b ++ log_name;
  num_of_blocks = 2;
  block_size = 2;
}

started :
    caching_main (λ p. true) (λ p. some p) (path_a ∷ path_b ∷ path_a ∷ two ∷ two ∷ [])
    ≡ done (mounts settings)
unfolding caching_main positive_number set_paths atoi strtol skip_spaces scan
started = refl

abbrev session : List Request
session = reads path_a 8 ∷ renames path_a path_b ∷ reads path_b 8 ∷ reads path_a 8 ∷ []

session-Legal : Legal 2 2 session files
unfolding same_string
session-Legal = (
  refl,
  omega arith,
  omega arith,
  omega arith,
  omega arith,
  (
    refl,
    refl,
    (
      refl,
      omega arith,
      omega arith,
      omega arith,
      omega arith,
      (refl, tt, omega arith, omega arith, omega arith, tt),
    ),
  ),
)

caching_main-refines_example :
    cached 2 session files (caching_init 2) ≡ done (directly session files)
caching_main-refines_example =
    caching_main-refines (λ p. true) (λ p. some p) (path_a ∷ path_b ∷ path_a ∷ two ∷ two ∷ [])
      settings 2 session files started session-Legal

-- The answers.
session_answers :
    directly session files
    ≡ got (1 ∷ 2 ∷ 3 ∷ 4 ∷ 5 ∷ []) ∷ renamed ∷ got (1 ∷ 2 ∷ 3 ∷ 4 ∷ 5 ∷ []) ∷ missing ∷ []
unfolding directly same_string
session_answers = refl

abbrev block_b : CacheBlock
block_b = record {
  path = some path_b;
  path_room = 3;
  contents = 7 ∷ [];
  block_enumerator = 1;
  counter = 1;
}

abbrev block_a : CacheBlock
block_a = record {
  path = some path_a;
  path_room = 3;
  contents = 1 ∷ 2 ∷ [];
  block_enumerator = 1;
  counter = 1;
}

caching_rename-stale_example :
    (blocks' : List CacheBlock) × (caching_rename none path_a path_b (block_b ∷ block_a ∷ [])
      ≡ done blocks')
    × (is_in_cache path_b 1 blocks' ≡ some 0)
    × (get_elem? blocks' 0 ≡ some block_b)
caching_rename-stale_example =
    caching_rename-stale path_a path_b 1 0 block_b (block_b ∷ block_a ∷ []) (ground arith)
      ((λ h. omega arith), ((λ h. omega arith), tt)) refl (refl, refl)
      (λ j c h. absurd (omega arith))

abbrev sys : System
sys = record {
  root = path_b;
  log_path = path_b ++ log_name;
  stream = record { opens = true; writes = true; closes = true };
  now = 9;
  lstat = λ p. refuses 2;
  fstat = λ fd. refuses 9;
  may_access = λ p mask. none;
  open_file = λ p flags. refuses 2;
  pread = λ fd n o. bytes [];
  dup = λ fd. refuses 9;
  close = λ fd. some 9;
  open_directory = λ p. gives (two ∷ []);
  fills = λ ns n. false;
  rename = λ p q. some 2;
  stale_size = 0;
  end_errno = 0;
  reuses = some 0;
}

abbrev before : Mount
before = record { blocks = []; log = []; complaints = []; dirs = none ∷ [] }

directory_session_example :
    (m1 m2 m3 m4 : Mount) × (caching_opendir sys path_a before ≡ done (ends success (handle 0) m1))
    × (caching_readdir sys 0 m1 ≡ done (ends success (names (two ∷ [])) m2))
    × (caching_readdir sys 0 m2 ≡ done (ends success (names []) m3))
    × (caching_releasedir sys 0 m3 ≡ done (ends (minus 9) nothing m4))
    × (m4.dirs ≡ none ∷ [])
unfolding new_address put_object
directory_session_example =
    directory_session sys path_a two [] before (omega arith) refl (λ ns n. refl)

abbrev calls : List (System × Operation)
calls =
    (sys, open_directory path_a)
    ∷ (sys, rename_file path_a path_b)
    ∷ (sys, read_file path_a 2 0 3)
    ∷ (sys, control)
    ∷ []

abbrev afterwards : Mount
afterwards = record {
  blocks = caching_init 2;
  log =
      called 9 initialising
      ∷ called 9 opendir
      ∷ called 9 renaming
      ∷ called 9 reading
      ∷ called 9 fgetattr
      ∷ called 9 ioctl
      ∷ called 9 destroy
      ∷ [];
  complaints = unable_to_rename ∷ [];
  dirs = some (record { dir_ptr = two ∷ []; entry = none; offset = 0 }) ∷ [];
}

mounted_run : mounted sys 2 2 calls before ≡ done afterwards
unfolding mounted operations operate caching_opendir caching_ioctl caching_destroy init_handler
    log_rows write_to_log full_path ioctl_rows caching_init new_block new_address put_object
    rename_handler caching_rename read_handler caching_fgetattr caching_read rounds loop_extent
    read_loop read_round fetch_block store_read is_in_cache is_in_cache_from holds
mounted_run = refl

renames-SparesLog : SparesLog sys path_a path_b
unfolding full_path same_string
renames-SparesLog p p' e e' = ground (arith, e, e')

mounted-Lasting_example :
    (length afterwards.blocks ≡ 2)
    × Extends before.complaints afterwards.complaints
    × (handlers afterwards.log
        ≡ initialising ∷ opendir ∷ renaming ∷ reading ∷ fgetattr ∷ ioctl ∷ destroy ∷ [])
mounted-Lasting_example =
    mounted-Lasting sys 2 2 calls before afterwards (refl, refl, refl)
      (
        (refl, refl, refl),
        (((refl, refl, refl), renames-SparesLog), ((refl, refl, refl), ((refl, refl, refl), tt))),
      )
      mounted_run
