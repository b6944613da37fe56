-- ===== src/CachingFs/Directory.antt =====
-- A directory is opened, listed and released, with the handlers of ex4/CachingFileSystem.cpp.
use os_huji.Prelude.{
  append_assoc, ℕ, zero, suc, ◌+◌, ◌<◌, ◌≤◌, ◌≡◌, refl, ap, ◌∙◌, Bool, false, Option, none, some,
  List, [], ◌∷◌, ◌++◌, length, take_of_length-le, get_elem?, lt_of_get_elem?, set, ℤ, success,
  arith,
}
use os_huji.Prelude.Numbers.{Text, minus}
use os_huji.CachingFs.Block.{done}
use os_huji.CachingFs.System.{
  gives, Handler, opendir, readdir, releasedir, LogLine, called, complain, unable_to_read_directory,
  unable_to_release_directory, System, CacheDir, Mount, full_path, write_to_log, announce,
  new_address, put_object,
}
use os_huji.CachingFs.Handlers.{
  ends, handle, names, nothing, fill_names, read_names, caching_opendir, caching_readdir,
  caching_releasedir,
}

-- The status of a handler that ends in `close`.
abbrev pub status_of : Option ℕ → ℤ
status_of none = success
status_of (some e) = minus e

full_path_short :
    (root path : Text)
    → length root + length path < 4096
    → full_path root path ≡ done (root ++ path)
unfolding full_path
full_path_short root path h = ground (arith, take_of_length-le 4096 path)

write_to_log-dirs :
    (sys : System) (line : LogLine) (m : Mount) → (write_to_log sys line m).1.dirs ≡ m.dirs
unfolding write_to_log
write_to_log-dirs sys line m = ground arith

-- All names fit into the buffer.
fill_names_all :
    (fills : List Text → Text → Bool) (e : Text) (rest passed : List Text)
    → ((ns : List Text) (n : Text) → fills ns n ≡ false)
    → fill_names fills e rest passed
      ≡ (success, (record { dir_ptr = []; entry = none; offset = 0 }, passed ++ e ∷ rest))
unfolding fill_names
fill_names_all fills e [] passed h = ground (arith, h passed e)
fill_names_all fills e (n ∷ rest) passed h = ground (
  arith,
  h passed e,
  fill_names_all fills n rest (passed ++ e ∷ []) h,
  append_assoc passed (e ∷ []) (n ∷ rest),
)

-- The address that `new` gives is that of an object or the first one behind all.
new_address-le : (r : Option ℕ) (ds : List (Option CacheDir)) → new_address r ds ≤ length ds
unfolding new_address
new_address-le none ds = omega arith
new_address-le (some a) ds = go (get_elem? ds a) refl
  where
    go :
        (o : Option (Option CacheDir))
        → get_elem? ds a ≡ o
        → elim o [
          | none ↦ length ds
          | some object ↦ elim object [ none ↦ a | some dir ↦ length ds ]
        ]
          ≤ length ds
    go none e = omega arith
    go (some none) e = omega (arith, lt_of_get_elem? ds a none e)
    go (some (some dir)) e = omega arith

get_elem?-put_object :
    (ds : List (Option CacheDir)) (a : ℕ) (o : Option CacheDir)
    → a ≤ length ds
    → get_elem? (put_object ds a o) a ≡ some o
unfolding put_object
get_elem?-put_object [] zero o h = refl
get_elem?-put_object [] (suc a) o h = absurd (omega (arith, h))
get_elem?-put_object (x ∷ ds) zero o h = refl
get_elem?-put_object (x ∷ ds) (suc a) o h = get_elem?-put_object ds a o (omega (arith, h))

set-put_object :
    (ds : List (Option CacheDir)) (a : ℕ) (o p : Option CacheDir)
    → a ≤ length ds
    → set (put_object ds a o) a p ≡ put_object ds a p
unfolding put_object
set-put_object [] zero o p h = refl
set-put_object [] (suc a) o p h = absurd (omega (arith, h))
set-put_object (x ∷ ds) zero o p h = refl
set-put_object (x ∷ ds) (suc a) o p h = ap (◌∷◌ x) (set-put_object ds a o p (omega (arith, h)))

module _ (ds : List (Option CacheDir)) (address : ℕ) (inside : address ≤ length ds) where
  readdir_on :
      (sys : System) (dir : CacheDir) (m : Mount)
      → m.dirs ≡ put_object ds address (some dir)
      → caching_readdir sys (address) m
        ≡ done (read_names sys (address) dir (announce sys readdir m))
  unfolding caching_readdir
  readdir_on sys dir m e =
      let at : get_elem? (announce sys readdir m).dirs (address) ≡ some (some dir) =
        ap (λ xs. get_elem? xs (address)) (write_to_log-dirs sys (called sys.now readdir) m ∙ e)
        ∙ get_elem?-put_object ds address (some dir) inside in
      rw (at, caching_readdir) refl

  after :
      (sys : System) (h : Handler) (m : Mount) (o p : Option CacheDir)
      → m.dirs ≡ put_object ds address o
      → set (announce sys h m).dirs (address) p ≡ put_object ds address p
  after sys h m o p e =
      ap (λ xs. set xs (address) p) (write_to_log-dirs sys (called sys.now h) m ∙ e)
      ∙ set-put_object ds address o p inside

  listed :
      (sys : System) (e : Text) (rest : List Text) (m : Mount)
      → ((ns : List Text) (n : Text) → sys.fills ns n ≡ false)
      → read_names sys (address) (record { dir_ptr = e ∷ rest; entry = none; offset = 0 }) m
        ≡ ends success (names (e ∷ rest)) (record m {
          dirs = set m.dirs (address) (some (record { dir_ptr = []; entry = none; offset = 0 }));
        })
  unfolding read_names
  listed sys e rest m room = rw (fill_names_all sys.fills e rest [] room) refl

  lists_all :
      (sys : System) (e : Text) (rest : List Text) (m : Mount)
      → m.dirs
        ≡ put_object ds address (some (record { dir_ptr = e ∷ rest; entry = none; offset = 0 }))
      → ((ns : List Text) (n : Text) → sys.fills ns n ≡ false)
      → (m2 : Mount) × (caching_readdir sys (address) m ≡ done (ends success (names (e ∷ rest)) m2))
        × (m2.dirs
            ≡ put_object ds address (some (record { dir_ptr = []; entry = none; offset = 0 })))
  unfolding read_names
  lists_all sys e rest m at room = (
    record (announce sys readdir m) {
      dirs =
          set (announce sys readdir m).dirs (address)
            (some (record { dir_ptr = []; entry = none; offset = 0 }));
    },
    readdir_on sys _ m at ∙ ap done (listed sys e rest (announce sys readdir m) room),
    after sys readdir m _ _ at,
  )

  lists_nothing :
      (sys : System) (m : Mount)
      → m.dirs ≡ put_object ds address (some (record { dir_ptr = []; entry = none; offset = 0 }))
      → (m2 : Mount) × (caching_readdir sys (address) m
          ≡ done (ends (minus sys.end_errno) (names []) m2))
        × (m2.dirs
            ≡ put_object ds address (some (record { dir_ptr = []; entry = none; offset = 0 })))
  unfolding read_names
  lists_nothing sys m at = (
    complain unable_to_read_directory (record (announce sys readdir m) {
      dirs =
          set (announce sys readdir m).dirs (address)
            (some (record { dir_ptr = []; entry = none; offset = 0 }));
    }),
    readdir_on sys _ m at,
    after sys readdir m _ _ at,
  )

  released :
      (m : Mount) (x : Option ℕ)
      → m.dirs ≡ put_object ds address none
      → (m2 : Mount) × (elim x [
        | some e ↦ ends (minus e) nothing (complain unable_to_release_directory m)
        | none ↦ ends success nothing m
      ]
          ≡ ends (status_of x) nothing m2)
        × (m2.dirs ≡ put_object ds address none)
  released m none e = (m, refl, e)
  released m (some n) e = (complain unable_to_release_directory m, refl, e)

  releases :
      (sys : System) (dir : CacheDir) (m : Mount)
      → m.dirs ≡ put_object ds address (some dir)
      → (m2 : Mount) × (caching_releasedir sys (address) m
          ≡ done (ends (status_of (sys.close (address))) nothing m2))
        × (m2.dirs ≡ put_object ds address none)
  unfolding caching_releasedir
  releases sys dir m e =
      let at : get_elem? (announce sys releasedir m).dirs (address) ≡ some (some dir) =
        ap (λ xs. get_elem? xs (address)) (write_to_log-dirs sys (called sys.now releasedir) m ∙ e)
        ∙ get_elem?-put_object ds address (some dir) inside in
      let (m2, ran, dirs) =
        released
          (record (announce sys releasedir m) {
            dirs = set (announce sys releasedir m).dirs (address) none;
          })
          (sys.close (address)) (after sys releasedir m (some dir) none e) in
      (m2, rw (at, caching_releasedir) (ap done ran), dirs)

opens :
    (sys : System) (path e : Text) (rest : List Text) (m : Mount)
    → length sys.root + length path < 4096
    → sys.open_directory (sys.root ++ path) ≡ gives (e ∷ rest)
    → (m2 : Mount) × (caching_opendir sys path m
        ≡ done (ends success (handle (new_address sys.reuses m.dirs)) m2))
      × (m2.dirs
          ≡ put_object m.dirs
              (new_address sys.reuses m.dirs)
              (some (record { dir_ptr = e ∷ rest; entry = none; offset = 0 })))
unfolding caching_opendir
opens sys path e rest m short there = (
  record (announce sys opendir m) {
    dirs =
        put_object (announce sys opendir m).dirs
          (new_address sys.reuses (announce sys opendir m).dirs)
          (some (record { dir_ptr = e ∷ rest; entry = none; offset = 0 }));
  },
  ground (
    arith,
    full_path_short sys.root path short,
    there,
    write_to_log-dirs sys (called sys.now opendir) m,
  ),
  ap
      (λ ds.
        put_object ds (new_address sys.reuses ds)
          (some (record { dir_ptr = e ∷ rest; entry = none; offset = 0 })))
      (write_to_log-dirs sys (called sys.now opendir) m),
)

-- A directory that the system below opens and that has a name in it, under a path that fits the
-- buffer, gets the address of a new object for its handle. If all names fit FUSE's buffer, the first `readdir` on it passes
-- them all on in their order, and the second passes none and returns the negative `errno` left
-- over. `releasedir` then deletes the object, with the status of a `close` of its address.
pub directory_session :
    (sys : System) (path e : Text) (rest : List Text) (m : Mount)
    → length sys.root + length path < 4096
    → sys.open_directory (sys.root ++ path) ≡ gives (e ∷ rest)
    → ((ns : List Text) (n : Text) → sys.fills ns n ≡ false)
    → (m1 m2 m3 m4 : Mount) × (caching_opendir sys path m
        ≡ done (ends success (handle (new_address sys.reuses m.dirs)) m1))
      × (caching_readdir sys (new_address sys.reuses m.dirs) m1
          ≡ done (ends success (names (e ∷ rest)) m2))
      × (caching_readdir sys (new_address sys.reuses m.dirs) m2
          ≡ done (ends (minus sys.end_errno) (names []) m3))
      × (caching_releasedir sys (new_address sys.reuses m.dirs) m3
          ≡ done (ends (status_of (sys.close (new_address sys.reuses m.dirs))) nothing m4))
      × (m4.dirs ≡ put_object m.dirs (new_address sys.reuses m.dirs) none)
directory_session sys path e rest m short there room =
    let a = new_address sys.reuses m.dirs in
    let inside = new_address-le sys.reuses m.dirs in
    let (m1, opened, d1) = opens sys path e rest m short there in
    let (m2, listed_all, d2) = lists_all m.dirs a inside sys e rest m1 d1 room in
    let (m3, listed_none, d3) = lists_nothing m.dirs a inside sys m2 d2 in
    let (m4, freed, d4) = releases m.dirs a inside sys _ m3 d3 in
    (m1, m2, m3, m4, opened, listed_all, listed_none, freed, d4)
