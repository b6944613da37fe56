-- ===== src/CachingFs/System.antt =====
-- What the handlers of ex4/CachingFileSystem.cpp share: the system below, the log and the paths.
use os_huji.Prelude.{
  ℕ, zero, suc, ◌+◌, Bool, true, false, not, Option, none, some, List, [], ◌∷◌, ◌++◌, length,
  get_elem?, take, min, ltb, if◌then◌else◌, ℤ, success, fail,
}
use os_huji.Prelude.Numbers.{Text}
use os_huji.CachingFs.Block.{CacheBlock, Io, done, overflow, same_string}
use os_huji.CachingFs.Cache.{Row}
use os_huji.CachingFs.Read.{Pread}

-- A call of the system below gives something, or fails with an `errno`.
pub data Below {ℓ} (A : Type ℓ) : Type ℓ where
  refuses : ℕ → Below A
  gives : A → Below A

pub data Handler : Type 0 where
  getattr fgetattr access opening reading flush release opendir : Handler
  readdir releasedir renaming initialising destroy ioctl : Handler

-- A line of the log: the name of a handler behind the time, or a row of the cache.
pub data LogLine : Type 0 where
  called : ℕ → Handler → LogLine
  block_row : Row → LogLine

-- The messages on the error stream.
pub data Complaint : Type 0 where
  cannot_open_log cannot_write_log cannot_close_log problem_in_reading unable_to_flush : Complaint
  unable_to_release unable_to_read_directory unable_to_release_directory : Complaint
  unable_to_rename : Complaint

-- Whether the stream of the log opens, takes a line and closes.
pub record Stream : Type 0 where
  pub opens : Bool
  pub writes : Bool
  pub closes : Bool

-- The system below, with the paths that the program keeps. A `stat` is given by its size, an open
-- directory by the names that `readdir` gives, and `fills` says whether the buffer of FUSE is full for
-- a name behind others. `stale_size` stands in a `stat` that was not written, `end_errno` is the
-- `errno` when a directory has no more names, and `reuses` the address of a deleted object that
-- `new` gives again, if it does.
pub record System : Type 0 where
  pub root : Text
  pub log_path : Text
  pub stream : Stream
  pub now : ℕ
  pub lstat : Text → Below ℕ
  pub fstat : ℕ → Below ℕ
  pub may_access : Text → ℕ → Option ℕ
  pub open_file : Text → ℕ → Below ℕ
  pub pread : ℕ → ℕ → ℕ → Pread
  pub dup : ℕ → Below ℕ
  pub close : ℕ → Option ℕ
  pub open_directory : Text → Below (List Text)
  pub fills : List Text → Text → Bool
  pub rename : Text → Text → Option ℕ
  pub stale_size : ℕ
  pub end_errno : ℕ
  pub reuses : Option ℕ

-- `CacheDir`: what the open directory has left, the entry and the offset.
pub record CacheDir : Type 0 where
  pub dir_ptr : List Text
  pub entry : Option Text
  pub offset : ℕ

-- The mounted file system: the cache, the log, the messages, and the `CacheDir` objects by their
-- addresses, `none` for one that was deleted. The log is the lines that the program wrote to its
-- path since a rename last moved that file or put_object another one in its place.
pub record Mount : Type 0 where
  pub blocks : List CacheBlock
  pub log : List LogLine
  pub complaints : List Complaint
  pub dirs : List (Option CacheDir)

abbrev pub complain : Complaint → Mount → Mount
complain c m = record m { complaints = m.complaints ++ c ∷ [] }

-- The address that `new` gives: that of a deleted object, or one that no object had.
unfoldable pub new_address : Option ℕ → List (Option CacheDir) → ℕ
new_address none dirs = length dirs
new_address (some a) dirs = elim (get_elem? dirs a) [
  | none ↦ length dirs
  | some object ↦ elim object [ none ↦ a | some dir ↦ length dirs ]
]

-- The object at an address, which may be the first one behind the others.
unfoldable pub put_object : List (Option CacheDir) → ℕ → Option CacheDir → List (Option CacheDir)
put_object [] a object = object ∷ []
put_object (x ∷ dirs) zero object = object ∷ dirs
put_object (x ∷ dirs) (suc a) object = x ∷ put_object dirs a object

-- Whether a rename takes the log's file away or puts another one in its place.
abbrev pub touches_log : System → Text → Text → Bool
touches_log sys fpath fnewpath =
    if same_string fpath fnewpath
    then false
    else if same_string fpath sys.log_path
    then true
    else same_string fnewpath sys.log_path

-- `fullPath`: PATH_MAX is 4096.
unfoldable pub full_path : Text → Text → Io Text
full_path root path =
    if ltb (length root + min (length path) 4096) 4096
    then done (root ++ take 4096 path)
    else overflow

-- `writeToLog`
unfoldable pub write_to_log : System → LogLine → Mount → ℤ × Mount
write_to_log sys line m =
    if not sys.stream.opens
    then (fail, complain cannot_open_log m)
    else if not sys.stream.writes
    then (fail, complain cannot_write_log m)
    else if not sys.stream.closes
    then (fail, complain cannot_close_log (record m { log = m.log ++ line ∷ [] }))
    else (success, record m { log = m.log ++ line ∷ [] })

-- The first line of each handler, which does not look at the result.
abbrev pub announce : System → Handler → Mount → Mount
announce sys h m = (write_to_log sys (called sys.now h) m).1
