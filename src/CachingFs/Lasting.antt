-- ===== src/CachingFs/Lasting.antt =====
-- What lasts through any calls of the handlers of ex4/CachingFileSystem.cpp.
use os_huji.Prelude.{◌≡◌, refl, ◌∙◌, subst, List, [], ◌∷◌, ◌++◌, length, length-replicate, ℕ}
use os_huji.CachingFs.Block.{CacheBlock, done, new_block}
use os_huji.CachingFs.Cache.{caching_init}
use os_huji.CachingFs.System.{
  Handler, getattr, fgetattr, access, opening, reading, flush, release, opendir, readdir,
  releasedir, renaming, initialising, destroy, ioctl, System, Mount, announce,
}
use os_huji.CachingFs.Handlers.{init_handler, caching_destroy}
use os_huji.CachingFs.Mounted.{
  Operation, get_attributes, get_open_attributes, check_access, open_file, read_file, flush_file,
  release_file, open_directory, read_directory, release_directory, rename_file, control, operate,
  operations, mounted,
}
use os_huji.CachingFs.Number.{OnDone, OnDone-bind, OnDone-mono}
use os_huji.CachingFs.Frames.{
  Extends, Works, handlers, Framed, Framed-refl, Framed-trans, Framed-when, announce-Framed,
}
use os_huji.CachingFs.Untouched.{
  After, caching_getattr-Framed, caching_fgetattr-Framed, caching_access-Framed,
  caching_open-Framed, caching_flush-Framed, caching_release-Framed, caching_opendir-Framed,
}
use os_huji.CachingFs.Kept.{
  read_handler-Framed, caching_readdir-Framed, caching_releasedir-Framed, SparesLog,
  rename_handler-Framed, caching_ioctl-Framed,
}

-- The handlers that an operation runs: a read asks for the attributes of its file.
abbrev pub handlers_of : Operation → List Handler
handlers_of (get_attributes path) = getattr ∷ []
handlers_of (get_open_attributes fh) = fgetattr ∷ []
handlers_of (check_access path mask) = access ∷ []
handlers_of (open_file path flags) = opening ∷ []
handlers_of (read_file path size offset fh) = reading ∷ fgetattr ∷ []
handlers_of (flush_file fh) = flush ∷ []
handlers_of (release_file fh) = release ∷ []
handlers_of (open_directory path) = opendir ∷ []
handlers_of (read_directory fh) = readdir ∷ []
handlers_of (release_directory fh) = releasedir ∷ []
handlers_of (rename_file path newpath) = renaming ∷ []
handlers_of control = ioctl ∷ []

-- The stream of the log works, and a rename leaves the log's file alone.
abbrev pub IsLogged : System → Operation → Type 0
IsLogged sys (rename_file path newpath) = Works sys × SparesLog sys path newpath
IsLogged sys _ = Works sys

operate-Framed :
    (sys : System) (block_size : ℕ) (o : Operation) (m : Mount)
    → OnDone (After (IsLogged sys o) (handlers_of o) m) (operate sys block_size o m)
unfolding operate
operate-Framed sys block_size (get_attributes path) m = caching_getattr-Framed sys path m
operate-Framed sys block_size (get_open_attributes fh) m = caching_fgetattr-Framed sys fh m
operate-Framed sys block_size (check_access path mask) m = caching_access-Framed sys path mask m
operate-Framed sys block_size (open_file path flags) m = caching_open-Framed sys path flags m
operate-Framed sys block_size (read_file path size offset fh) m =
    read_handler-Framed sys block_size path size offset fh m
operate-Framed sys block_size (flush_file fh) m = caching_flush-Framed sys fh m
operate-Framed sys block_size (release_file fh) m = caching_release-Framed sys fh m
operate-Framed sys block_size (open_directory path) m = caching_opendir-Framed sys path m
operate-Framed sys block_size (read_directory fh) m = caching_readdir-Framed sys fh m
operate-Framed sys block_size (release_directory fh) m = caching_releasedir-Framed sys fh m
operate-Framed sys block_size (rename_file path newpath) m =
    rename_handler-Framed sys path newpath m
operate-Framed sys block_size control m = caching_ioctl-Framed sys m

abbrev pub AllLogged : List (System × Operation) → Type 0
AllLogged [] = Unit
AllLogged ((sys, o) ∷ os) = IsLogged sys o × AllLogged os

abbrev pub all_handlers : List (System × Operation) → List Handler
all_handlers [] = []
all_handlers ((sys, o) ∷ os) = handlers_of o ++ all_handlers os

operations-Framed :
    (block_size : ℕ) (os : List (System × Operation)) (m : Mount)
    → OnDone (Framed (AllLogged os) (all_handlers os) m) (operations block_size os m)
unfolding operations
operations-Framed block_size [] m = Framed-refl Unit m
operations-Framed block_size ((sys, o) ∷ os) m =
    let q = AllLogged ((sys, o) ∷ os) in
    let hs = all_handlers os in
    OnDone-bind (After (IsLogged sys o) (handlers_of o) m) (Framed q (handlers_of o ++ hs) m)
      (operate sys block_size o m) _ (operate-Framed sys block_size o m)
      (λ r f.
        OnDone-mono (Framed (AllLogged os) hs r.mount) (Framed q (handlers_of o ++ hs) m)
          (operations block_size os r.mount)
          (λ m2 g.
            Framed-trans q (handlers_of o) hs m r.mount m2
              (Framed-when (IsLogged sys o) q (handlers_of o) m r.mount (λ c. c.0) f)
              (Framed-when (AllLogged os) q hs r.mount m2 (λ c. c.1) g))
          (operations-Framed block_size os r.mount))

-- What the log names after a mount: `init`, the operations' handlers, `destroy`.
abbrev pub whole_run : List (System × Operation) → List Handler
whole_run os = initialising ∷ all_handlers os ++ destroy ∷ []

mounted-Framed :
    (sys : System) (n block_size : ℕ) (os : List (System × Operation)) (m : Mount)
    → OnDone
        (Framed (Works sys × AllLogged os) (whole_run os) (record m { blocks = caching_init n }))
        (mounted sys n block_size os m)
unfolding mounted init_handler caching_destroy
mounted-Framed sys n block_size os m =
    let q = Works sys × AllLogged os in
    let m0 = record m { blocks = caching_init n } in
    let m1 = record (announce sys initialising m) { blocks = caching_init n } in
    let hs = all_handlers os in
    OnDone-bind (Framed (AllLogged os) hs m1) (Framed q (whole_run os) m0)
      (operations block_size os m1) _ (operations-Framed block_size os m1)
      (λ m2 f.
        Framed-trans q (initialising ∷ []) (hs ++ destroy ∷ []) m0 m1 _
          (Framed-when (Works sys) q (initialising ∷ []) m0 m1 (λ c. c.0)
            (started sys m (caching_init n)))
          (Framed-trans q hs (destroy ∷ []) m1 m2 _
            (Framed-when (AllLogged os) q hs m1 m2 (λ c. c.1) f)
            (Framed-when (Works sys) q (destroy ∷ []) m2 _ (λ c. c.0)
              (announce-Framed sys destroy m2))))
  where
    started :
        (sys : System) (m : Mount) (bs : List CacheBlock)
        → Framed
            (Works sys)
            (initialising ∷ [])
            (record m { blocks = bs })
            (record (announce sys initialising m) { blocks = bs })
    started sys m bs = record {
      number = refl;
      complaints = (announce-Framed sys initialising m).complaints;
      logged = (announce-Framed sys initialising m).logged;
    }

-- If a run from `init` to `destroy` comes to its end, the log's stream opens, takes every line and
-- closes, and no rename takes the log's file away or puts another one in its place, then whatever
-- handlers were called in between and whatever else the system below answered to each, the cache
-- has the number of blocks that `init` made, messages were only added to those before, and the
-- lines of the log that name handlers are, behind those of before, one for `init`, then those of
-- the calls in their order, two for a read, which asks for the attributes, and one for `destroy`.
pub mounted-Lasting :
    (sys : System) (n block_size : ℕ) (os : List (System × Operation)) (m m' : Mount)
    → Works sys
    → AllLogged os
    → mounted sys n block_size os m ≡ done m'
    → (length m'.blocks ≡ n)
      × Extends m.complaints m'.complaints
      × (handlers m'.log ≡ handlers m.log ++ whole_run os)
unfolding caching_init
mounted-Lasting sys n block_size os m m' works logged ran =
    let m0 = record m { blocks = caching_init n } in
    let q = Works sys × AllLogged os in
    let f : Framed q (whole_run os) m0 m' =
      subst (OnDone (Framed q (whole_run os) m0)) ran (mounted-Framed sys n block_size os m) in
    (f.number ∙ length-replicate n new_block, f.complaints, f.logged (works, logged))
