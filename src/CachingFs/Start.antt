-- ===== src/CachingFs/Start.antt =====
-- `main` of ex4/CachingFileSystem.cpp up to `fuse_main`.
use os_huji.Prelude.{
  ℕ, ◌+◌, ◌<◌, ◌≡◌, Bool, not, ◌||◌, Bool-cases, inl, inr, Option, none, some, Option-cases, List,
  [], ◌∷◌, ◌++◌, length, ltb, if◌then◌else◌, ℤ, pos, negsuc, arith,
}
use os_huji.Prelude.Numbers.{Text, atoi}
use os_huji.CachingFs.Block.{Io, done, overflow}
use os_huji.CachingFs.Cache.{caching_init}
use os_huji.CachingFs.Session.{Files, Request, directly, cached, Legal}
use os_huji.CachingFs.Refinement.{cached-directly}

-- What the program keeps for the handlers.
pub record Settings : Type 0 where
  pub root_path : Text
  pub log_path : Text
  pub num_of_blocks : ℕ
  pub block_size : ℕ

-- The program prints its usage and exits with -1, or calls `fuse_main`.
pub data Start : Type 0 where
  shows_usage : Start
  mounts : Settings → Start

-- A number above 0 that `atoi` reads.
unfoldable pub positive_number : Text → Option ℕ
positive_number s = elim (atoi s) [ pos n ↦ (if ltb 0 n then some n else none) | negsuc n ↦ none ]

-- "/.filesystem.log"
abbrev pub log_name : Text
log_name =
    b'/' ∷ b'.' ∷ b'f' ∷ b'i' ∷ b'l' ∷ b'e' ∷ b's' ∷ b'y' ∷ b's' ∷ b't' ∷ b'e' ∷ b'm' ∷ b'.' ∷ b'l'
    ∷ b'o' ∷ b'g' ∷ []

-- `logPath` has PATH_MAX bytes; a root without a real path is a null pointer.
unfoldable pub set_paths : Option Text → ℕ → ℕ → Io Start
set_paths none blocks size = overflow
set_paths (some root) blocks size =
    if ltb (length root + length log_name) 4096
    then done (
        mounts (record {
          root_path = root;
          log_path = root ++ log_name;
          num_of_blocks = blocks;
          block_size = size;
        }))
    else overflow

-- `is_directory` and `real_path` are the calls of `stat` and `realpath`.
unfoldable pub caching_main : (Text → Bool) → (Text → Option Text) → List Text → Io Start
caching_main is_directory real_path (program ∷ root ∷ mount ∷ blocks ∷ size ∷ []) =
    elim (positive_number blocks) [
      | none ↦ done shows_usage
      | some n ↦ elim (positive_number size) [
        | none ↦ done shows_usage
        | some b ↦
            if not (is_directory root) || not (is_directory mount)
            then done shows_usage
            else set_paths (real_path root) n b
      ]
    ]
caching_main is_directory real_path _ = done shows_usage

positive_number_bound : (s : Text) (n : ℕ) → positive_number s ≡ some n → 0 < n
unfolding positive_number
positive_number_bound s n h = go (atoi s) h
  where
    go :
        (z : ℤ)
        → (elim z [ pos n ↦ (if ltb 0 n then some n else none) | negsuc n ↦ none ]) ≡ some n
        → 0 < n
    go (pos m) e = ground (arith, e)
    go (negsuc m) e = absurd (ground (arith, e))

set_paths-kept :
    (root : Option Text) (n b : ℕ) (c : Settings)
    → set_paths root n b ≡ done (mounts c)
    → (c.num_of_blocks ≡ n) × (c.block_size ≡ b)
unfolding set_paths
set_paths-kept none n b c h = absurd (ground (arith, h))
set_paths-kept (some root) n b c h = ground (arith, h)

caching_main-positive :
    (is_directory : Text → Bool) (real_path : Text → Option Text) (argv : List Text) (c : Settings)
    → caching_main is_directory real_path argv ≡ done (mounts c)
    → (0 < c.num_of_blocks) × (0 < c.block_size)
unfolding caching_main
caching_main-positive is_directory real_path (program ∷ root ∷ mount ∷ blocks ∷ size ∷ []) c h =
    elim (Option-cases (positive_number blocks)) [
      | inl e ↦ absurd (ground (arith, h, e))
      | inr (n, e) ↦ elim (Option-cases (positive_number size)) [
        | inl f ↦ absurd (ground (arith, h, e, f))
        | inr (b, f) ↦ elim (Bool-cases (not (is_directory root) || not (is_directory mount))) [
          | inl bad ↦ absurd (ground (arith, h, e, f, bad))
          | inr good ↦
              let (p, q) = set_paths-kept (real_path root) n b c (ground (arith, h, e, f, good)) in
              (
                omega (arith, p, positive_number_bound blocks n e),
                omega (arith, q, positive_number_bound size b f),
              )
        ]
      ]
    ]
caching_main-positive is_directory real_path [] c h = absurd (ground (arith, h))
caching_main-positive is_directory real_path (a ∷ []) c h = absurd (ground (arith, h))
caching_main-positive is_directory real_path (a ∷ b ∷ []) c h = absurd (ground (arith, h))
caching_main-positive is_directory real_path (a ∷ b ∷ d ∷ []) c h = absurd (ground (arith, h))
caching_main-positive is_directory real_path (a ∷ b ∷ d ∷ e ∷ []) c h = absurd (ground (arith, h))
caching_main-positive is_directory real_path (a ∷ b ∷ d ∷ e ∷ f ∷ g ∷ rest) c h =
    absurd (ground (arith, h))

-- With the settings of a `main` that comes to mount, from an empty cache, every sequence of reading
-- whole files and renaming them gives the same answers as the files themselves, in which a rename
-- moves a file and a missing path is an error. All paths that are read or are new names have one
-- length; what is read has no zero byte, is not larger than the request, and keeps to the integers
-- of the program; and no rename goes to a name that exists.
pub caching_main-refines :
    (is_directory : Text → Bool) (real_path : Text → Option Text) (argv : List Text) (c : Settings)
    (room : ℕ) (rs : List Request) (files : Files)
    → caching_main is_directory real_path argv ≡ done (mounts c)
    → Legal room c.block_size rs files
    → cached c.block_size rs files (caching_init c.num_of_blocks) ≡ done (directly rs files)
caching_main-refines is_directory real_path argv c room rs files started legal =
    let (some_block, positive) = caching_main-positive is_directory real_path argv c started in
    cached-directly c.block_size room c.num_of_blocks rs files positive some_block legal
