-- ===== src/CachingFs/Handlers.antt =====
-- The handlers of ex4/CachingFileSystem.cpp. `return -errno` is a status.
use os_huji.Prelude.{
  ℕ, Bool, Option, none, some, List, [], ◌∷◌, ◌++◌, length, get_elem?, set, if◌then◌else◌, ℤ, pos,
  success,
}
use os_huji.Prelude.Numbers.{Text, minus, to_int}
use os_huji.CachingFs.Block.{Io, done, failed, overflow, ◌>>=◌, same_string}
use os_huji.CachingFs.Cache.{Row, ioctl_rows, caching_init, caching_rename}
use os_huji.CachingFs.Read.{OpenFile, caching_read}
use os_huji.CachingFs.System.{
  refuses, gives, getattr, fgetattr, access, opening, reading, flush, release, opendir, readdir,
  releasedir, renaming, initialising, destroy, ioctl, block_row, unable_to_flush, unable_to_release,
  unable_to_read_directory, unable_to_release_directory, unable_to_rename, problem_in_reading,
  System, CacheDir, Mount, complain, full_path, write_to_log, announce, new_address, put_object,
  touches_log,
}

-- What a handler hands to FUSE beside its status: a `stat`, the file handle, bytes or names.
pub data Value : Type 0 where
  nothing : Value
  stat_of : ℕ → Value
  handle : ℕ → Value
  bytes_read : List ℕ → Value
  names : List Text → Value

pub record Outcome : Type 0 where
  pub status : ℤ
  pub value : Value
  pub mount : Mount

abbrev pub ends : ℤ → Value → Mount → Outcome
ends status value m = record { status = status; value = value; mount = m }

-- ENOENT is 2.
unfoldable pub caching_getattr : System → Text → Mount → Io Outcome
caching_getattr sys path m = do
  let m1 = announce sys getattr m
  fpath ← full_path sys.root path
  done (
      if same_string fpath sys.log_path then ends (minus 2) nothing m1 else elim (sys.lstat fpath) [
        | refuses e ↦ ends (minus e) nothing m1
        | gives st ↦ ends success (stat_of st) m1
      ])

unfoldable pub caching_fgetattr : System → ℕ → Mount → Outcome
caching_fgetattr sys fh m = elim (sys.fstat fh) [
  | refuses e ↦ ends (minus e) nothing (announce sys fgetattr m)
  | gives st ↦ ends success (stat_of st) (announce sys fgetattr m)
]

unfoldable pub caching_access : System → Text → ℕ → Mount → Io Outcome
caching_access sys path mask m = do
  let m1 = announce sys access m
  fpath ← full_path sys.root path
  done (elim (sys.may_access fpath mask) [
    | some e ↦ ends (minus e) nothing m1
    | none ↦ ends success nothing m1
  ])

unfoldable pub caching_open : System → Text → ℕ → Mount → Io Outcome
caching_open sys path flags m = do
  let m1 = announce sys opening m
  fpath ← full_path sys.root path
  done (elim (sys.open_file fpath flags) [
    | refuses e ↦ ends (minus e) nothing m1
    | gives fd ↦ ends success (handle fd) m1
  ])

-- The size in the `stat` that `caching_fgetattr` may have filled.
abbrev pub size_in : System → Value → ℕ
size_in sys (stat_of st) = st
size_in sys _ = sys.stale_size

-- `caching_read` with its first lines and its last ones: `strcpy` puts a zero behind the bytes, and
-- their number is returned as an `int`. A read that fails keeps the blocks that it stored before.
unfoldable pub read_handler : System → ℕ → Text → ℕ → ℕ → ℕ → Mount → Io Outcome
read_handler sys block_size path size offset fh m = do
  fpath ← full_path sys.root path
  let r = caching_fgetattr sys fh (announce sys reading m)
  let file : OpenFile = record { pread = sys.pread fh; st_size = size_in sys r.value }
  elim (caching_read file block_size path size offset r.mount.blocks) [
    | done (blocks, bytes) ↦ done (
        ends (to_int (pos (length bytes))) (bytes_read (bytes ++ 0 ∷ []))
          (record r.mount { blocks = blocks }))
    | failed e blocks ↦
        done (
          ends (minus e) nothing (complain problem_in_reading (record r.mount { blocks = blocks })))
    | overflow ↦ overflow
  ]

-- `close(dup(fi->fh))`: EBADF of a `dup` that failed is 9.
abbrev pub close_duplicate : System → ℕ → Option ℕ
close_duplicate sys fh = elim (sys.dup fh) [ refuses e ↦ some 9 | gives fd ↦ sys.close fd ]

unfoldable pub caching_flush : System → ℕ → Mount → Outcome
caching_flush sys fh m =
    let m1 = announce sys flush m in
    elim (close_duplicate sys fh) [
      | some e ↦ ends (minus e) nothing (complain unable_to_flush m1)
      | none ↦ ends success nothing m1
    ]

unfoldable pub caching_release : System → ℕ → Mount → Outcome
caching_release sys fh m =
    let m1 = announce sys release m in
    elim (sys.close fh) [
      | some e ↦ ends (minus e) nothing (complain unable_to_release m1)
      | none ↦ ends success nothing m1
    ]

-- `new CacheDir()`, which is deleted again if the directory does not open.
unfoldable pub caching_opendir : System → Text → Mount → Io Outcome
caching_opendir sys path m = do
  let m1 = announce sys opendir m
  fpath ← full_path sys.root path
  let address = new_address sys.reuses m1.dirs
  done (elim (sys.open_directory fpath) [
    | refuses e ↦ ends (minus e) nothing (record m1 { dirs = put_object m1.dirs address none })
    | gives entries ↦ ends success (handle address) (record m1 {
      dirs =
          put_object m1.dirs address
            (some (record { dir_ptr = entries; entry = none; offset = 0 }));
    })
  ])

-- The loop of `caching_readdir` from the entry `e` on, with the names left and those passed on.
-- ENOMEM is 12.
unfoldable pub fill_names :
    (List Text → Text → Bool) → Text → List Text → List Text → ℤ × (CacheDir × List Text)
fill_names fills e [] passed =
    if fills passed e
    then (minus 12, (record { dir_ptr = []; entry = some e; offset = 0 }, passed))
    else (success, (record { dir_ptr = []; entry = none; offset = 0 }, passed ++ e ∷ []))
fill_names fills e (n ∷ rest) passed =
    let more = fill_names fills n rest (passed ++ e ∷ []) in
    if fills passed e
    then (minus 12, (record { dir_ptr = n ∷ rest; entry = some e; offset = 0 }, passed))
    else more

unfoldable pub read_names : System → ℕ → CacheDir → Mount → Outcome
read_names sys address dir m = elim dir.dir_ptr [
  | [] ↦ ends (minus sys.end_errno) (names []) (
      complain unable_to_read_directory
        (record m { dirs = set m.dirs address (some (record dir { entry = none })) }))
  | e ∷ rest ↦
      let (status, (dir1, passed)) = fill_names sys.fills e rest [] in
      ends status (names passed) (record m { dirs = set m.dirs address (some dir1) })
]

-- A handle whose object was deleted is an access out of place, like `overflow` elsewhere.
unfoldable pub caching_readdir : System → ℕ → Mount → Io Outcome
caching_readdir sys fh m =
    let m1 = announce sys readdir m in
    elim (get_elem? m1.dirs fh) [
      | none ↦ overflow
      | some object ↦ elim object [ none ↦ overflow | some dir ↦ done (read_names sys fh dir m1) ]
    ]

-- The handle is the address of the object, and `close` gets it for a descriptor.
unfoldable pub caching_releasedir : System → ℕ → Mount → Io Outcome
caching_releasedir sys fh m =
    let m1 = announce sys releasedir m in
    elim (get_elem? m1.dirs fh) [
      | none ↦ overflow
      | some object ↦ elim object [
        | none ↦ overflow
        | some dir ↦
            let m2 = record m1 { dirs = set m1.dirs fh none } in
            done (elim (sys.close fh) [
              | some e ↦ ends (minus e) nothing (complain unable_to_release_directory m2)
              | none ↦ ends success nothing m2
            ])
      ]
    ]

-- `caching_rename` with its first lines. The log's file may be one of the two.
unfoldable pub rename_handler : System → Text → Text → Mount → Io Outcome
rename_handler sys path newpath m = do
  let m1 = announce sys renaming m
  fpath ← full_path sys.root path
  fnewpath ← full_path sys.root newpath
  elim (caching_rename (sys.rename fpath fnewpath) path newpath m1.blocks) [
    | done blocks ↦ done (
        ends success nothing (record m1 {
          blocks = blocks;
          log = if touches_log sys fpath fnewpath then [] else m1.log;
        }))
    | failed e _ ↦ done (ends (minus e) nothing (complain unable_to_rename m1))
    | overflow ↦ overflow
  ]

unfoldable pub init_handler : System → ℕ → Mount → Outcome
init_handler sys num_of_blocks m =
    ends success nothing
      (record (announce sys initialising m) { blocks = caching_init num_of_blocks })

unfoldable pub caching_destroy : System → Mount → Outcome
caching_destroy sys m = ends success nothing (announce sys destroy m)

-- The rows of the cache, one line for each.
unfoldable pub log_rows : System → List Row → Mount → Mount
log_rows sys [] m = m
log_rows sys (row ∷ rows) m = log_rows sys rows (write_to_log sys (block_row row) m).1

unfoldable pub caching_ioctl : System → Mount → Outcome
caching_ioctl sys m =
    let m1 = announce sys ioctl m in ends success nothing (log_rows sys (ioctl_rows m1.blocks) m1)
