-- ===== src/CachingFs/Kept.antt =====
-- What the handlers of ex4/CachingFileSystem.cpp that use the cache or a directory add to the log.
use os_huji.Prelude.{
  ◌≡◌, refl, Bool, true, false, none, some, Option, List, [], ◌∷◌, ◌++◌, length, get_elem?, set, ℕ,
  pos, success, arith, if◌then◌else◌,
}
use os_huji.Prelude.Numbers.{Text, minus, to_int}
use os_huji.CachingFs.Block.{CacheBlock, Io, done, failed, overflow}
use os_huji.CachingFs.Cache.{Row, caching_rename}
use os_huji.CachingFs.System.{
  Handler, fgetattr, reading, readdir, releasedir, renaming, ioctl, block_row,
  unable_to_read_directory, unable_to_release_directory, unable_to_rename, problem_in_reading,
  System, CacheDir, Mount, complain, full_path, touches_log, announce,
}
use os_huji.CachingFs.Handlers.{
  Outcome, ends, nothing, bytes_read, caching_fgetattr, read_handler, caching_readdir, read_names,
  caching_releasedir, rename_handler, log_rows, caching_ioctl,
}
use os_huji.CachingFs.Number.{OnDone, OnIo, caching_read-Sized, rename_blocks-Sized}
use os_huji.CachingFs.Frames.{
  Works, Framed, Framed-refl, Framed-trans, Framed-when, complain-Framed, write_to_log-Framed,
  announce-Framed, blocks-Framed, dirs-Framed,
}
use os_huji.CachingFs.Untouched.{After, errno-After, path-After, caching_fgetattr-Framed}

-- Nothing more goes to the log.
quiet :
    (q : Type 0) (hs : List Handler) (m m1 m2 : Mount)
    → Framed q hs m m1
    → Framed q [] m1 m2
    → Framed q (hs ++ []) m m2
quiet q hs m m1 m2 f g = Framed-trans q hs [] m m1 m2 f g

-- What `read_handler` makes of the result of `caching_read`.
read-After :
    (q : Type 0) (m m1 : Mount) (x : Io (List CacheBlock × List ℕ))
    → Framed q (reading ∷ fgetattr ∷ []) m m1
    → OnIo (λ bs. length bs ≡ length m1.blocks) (λ r. length r.0 ≡ length m1.blocks) x
    → OnDone (After q (reading ∷ fgetattr ∷ []) m) (elim x [
      | done (blocks, bytes) ↦ done (
          ends
            (to_int (pos (length bytes)))
            (bytes_read (bytes ++ 0 ∷ []))
            (record m1 { blocks = blocks }))
      | failed e blocks ↦
          done
            (ends (minus e) nothing (complain problem_in_reading (record m1 { blocks = blocks })))
      | overflow ↦ overflow
    ])
read-After q m m1 (done (blocks, bytes)) f e = quiet q _ m m1 _ f (blocks-Framed q m1 blocks e)
read-After q m m1 (failed n blocks) f e =
    quiet q _ m m1 _ f
      (quiet q [] m1 _ _ (blocks-Framed q m1 blocks e) (complain-Framed q problem_in_reading _))
read-After q m m1 overflow f e = tt

pub read_handler-Framed :
    (sys : System) (block_size : ℕ) (path : Text) (size offset fh : ℕ) (m : Mount)
    → OnDone
        (After (Works sys) (reading ∷ fgetattr ∷ []) m)
        (read_handler sys block_size path size offset fh m)
unfolding read_handler
read_handler-Framed sys block_size path size offset fh m =
    path-After (Works sys) (reading ∷ fgetattr ∷ []) m sys.root path _ (λ fpath _.
      let m1 = announce sys reading m in
      let r = caching_fgetattr sys fh m1 in
      read-After (Works sys) m r.mount _
        (Framed-trans (Works sys) (reading ∷ []) (fgetattr ∷ []) m m1 _
          (announce-Framed sys reading m) (caching_fgetattr-Framed sys fh m1))
        (caching_read-Sized (length r.mount.blocks) _ block_size path size offset r.mount.blocks
          refl))

list-After :
    (q : Type 0) (m : Mount) (ns : List Text) (a : Outcome) (k : Text → List Text → Outcome)
    → After q [] m a
    → ((n : Text) (rest : List Text) → After q [] m (k n rest))
    → After q [] m (elim ns [ [] ↦ a | n ∷ rest ↦ k n rest ])
list-After q m [] a k f h = f
list-After q m (n ∷ rest) a k f h = h n rest

read_names-Framed :
    (q : Type 0) (sys : System) (fh : ℕ) (dir : CacheDir) (m : Mount)
    → After q [] m (read_names sys fh dir m)
unfolding read_names
read_names-Framed q sys fh dir m =
    list-After q m dir.dir_ptr _ _
      (quiet q [] m _ _ (dirs-Framed q m _) (complain-Framed q unable_to_read_directory _))
      (λ n rest. dirs-Framed q m _)

-- A handler of a directory is out of place without its object.
object-After :
    (q : Type 0) (hs : List Handler) (m : Mount) (o : Option (Option CacheDir))
    (k : CacheDir → Io Outcome)
    → ((dir : CacheDir) → OnDone (After q hs m) (k dir))
    → OnDone (After q hs m) (elim o [
      | none ↦ overflow
      | some object ↦ elim object [ none ↦ overflow | some dir ↦ k dir ]
    ])
object-After q hs m none k h = tt
object-After q hs m (some none) k h = tt
object-After q hs m (some (some dir)) k h = h dir

pub caching_readdir-Framed :
    (sys : System) (fh : ℕ) (m : Mount)
    → OnDone (After (Works sys) (readdir ∷ []) m) (caching_readdir sys fh m)
unfolding caching_readdir
caching_readdir-Framed sys fh m =
    let m1 = announce sys readdir m in
    object-After (Works sys) (readdir ∷ []) m (get_elem? m1.dirs fh)
      (λ dir. done (read_names sys fh dir m1))
      (λ dir.
        quiet (Works sys) _ m _ _ (announce-Framed sys readdir m)
          (read_names-Framed (Works sys) sys fh dir _))

pub caching_releasedir-Framed :
    (sys : System) (fh : ℕ) (m : Mount)
    → OnDone (After (Works sys) (releasedir ∷ []) m) (caching_releasedir sys fh m)
unfolding caching_releasedir
caching_releasedir-Framed sys fh m =
    let q = Works sys in
    let m1 = announce sys releasedir m in
    let m2 = record m1 { dirs = set m1.dirs fh none } in
    let f =
      quiet q (releasedir ∷ []) m m1 m2 (announce-Framed sys releasedir m)
        (dirs-Framed q m1 m2.dirs) in
    let failing = λ (e : ℕ). ends (minus e) nothing (complain unable_to_release_directory m2) in
    object-After q (releasedir ∷ []) m (get_elem? m1.dirs fh)
      (λ dir. done (elim (sys.close fh) [ some e ↦ failing e | none ↦ ends success nothing m2 ]))
      (λ dir.
        errno-After q (releasedir ∷ []) m (sys.close fh) failing (ends success nothing m2)
          (λ e.
            quiet q (releasedir ∷ []) m m2 _ f (complain-Framed q unable_to_release_directory m2))
          f)

-- The rename does not touch the log's file, whatever the two paths of the system below are.
abbrev pub SparesLog : System → Text → Text → Type 0
SparesLog sys path newpath =
    (fpath fnewpath : Text)
    → full_path sys.root path ≡ done fpath
    → full_path sys.root newpath ≡ done fnewpath
    → touches_log sys fpath fnewpath ≡ false

-- The log after a rename, under a condition that it is not touched.
renamed-Framed :
    (q : Type 0) (m : Mount) (blocks : List CacheBlock) (t : Bool)
    → length blocks ≡ length m.blocks
    → (q → t ≡ false)
    → Framed q [] m (record m { blocks = blocks; log = if t then [] else m.log })
renamed-Framed q m blocks false e h = blocks-Framed q m blocks e
renamed-Framed q m blocks true e h = record {
  number = e;
  complaints = (Framed-refl q m).complaints;
  logged = λ c. absurd (ground (arith, h c));
}

-- What `rename_handler` makes of the result of `caching_rename`.
rename-After :
    (q : Type 0) (hs : List Handler) (m m1 : Mount) (x : Io (List CacheBlock)) (t : Bool)
    → Framed q hs m m1
    → OnDone (λ bs. length bs ≡ length m1.blocks) x
    → (q → t ≡ false)
    → OnDone (After q (hs ++ []) m) (elim x [
      | done blocks ↦
          done
            (ends success nothing (record m1 { blocks = blocks; log = if t then [] else m1.log }))
      | failed e _ ↦ done (ends (minus e) nothing (complain unable_to_rename m1))
      | overflow ↦ overflow
    ])
rename-After q hs m m1 (done blocks) t f e h =
    quiet q hs m m1 _ f (renamed-Framed q m1 blocks t e h)
rename-After q hs m m1 (failed n blocks) t f e h =
    quiet q hs m m1 _ f (complain-Framed q unable_to_rename m1)
rename-After q hs m m1 overflow t f e h = tt

caching_rename-Sized :
    (x : Option ℕ) (path newpath : List ℕ) (blocks : List CacheBlock)
    → OnDone (λ bs. length bs ≡ length blocks) (caching_rename x path newpath blocks)
unfolding caching_rename
caching_rename-Sized none path newpath blocks = rename_blocks-Sized path newpath blocks
caching_rename-Sized (some e) path newpath blocks = tt

pub rename_handler-Framed :
    (sys : System) (path newpath : Text) (m : Mount)
    → OnDone
        (After (Works sys × SparesLog sys path newpath) (renaming ∷ []) m)
        (rename_handler sys path newpath m)
unfolding rename_handler
rename_handler-Framed sys path newpath m =
    let q = Works sys × SparesLog sys path newpath in
    path-After q (renaming ∷ []) m sys.root path _ (λ fpath e.
      path-After q (renaming ∷ []) m sys.root newpath _ (λ fnewpath e'.
        rename-After q (renaming ∷ []) m (announce sys renaming m) _
          (touches_log sys fpath fnewpath)
          (Framed-when (Works sys) q (renaming ∷ []) m _ (λ c. c.0)
            (announce-Framed sys renaming m))
          (caching_rename-Sized (sys.rename fpath fnewpath) path newpath _)
          (λ c. c.1 fpath fnewpath e e')))

log_rows-Framed :
    (sys : System) (rows : List Row) (m : Mount) → Framed (Works sys) [] m (log_rows sys rows m)
unfolding log_rows
log_rows-Framed sys [] m = Framed-refl (Works sys) m
log_rows-Framed sys (row ∷ rows) m =
    quiet (Works sys) [] m _ _ (write_to_log-Framed sys (block_row row) m)
      (log_rows-Framed sys rows _)

pub caching_ioctl-Framed :
    (sys : System) (m : Mount) → After (Works sys) (ioctl ∷ []) m (caching_ioctl sys m)
unfolding caching_ioctl
caching_ioctl-Framed sys m =
    quiet (Works sys) (ioctl ∷ []) m _ _ (announce-Framed sys ioctl m) (log_rows-Framed sys _ _)
