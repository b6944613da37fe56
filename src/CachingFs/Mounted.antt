-- ===== src/CachingFs/Mounted.antt =====
-- Sequences of calls of FUSE to the handlers of ex4/CachingFileSystem.cpp.
use os_huji.Prelude.{ℕ, List, [], ◌∷◌}
use os_huji.Prelude.Numbers.{Text}
use os_huji.CachingFs.Block.{Io, done, ◌>>=◌}
use os_huji.CachingFs.System.{System, Mount}
use os_huji.CachingFs.Handlers.{
  Outcome, caching_getattr, caching_fgetattr, caching_access, caching_open, read_handler,
  caching_flush, caching_release, caching_opendir, caching_readdir, caching_releasedir,
  rename_handler, init_handler, caching_destroy, caching_ioctl,
}

-- The operations that `init_caching_oper` sets, with their arguments.
pub data Operation : Type 0 where
  get_attributes : Text → Operation
  get_open_attributes : ℕ → Operation
  check_access : Text → ℕ → Operation
  open_file : Text → ℕ → Operation
  read_file : Text → ℕ → ℕ → ℕ → Operation
  flush_file release_file : ℕ → Operation
  open_directory : Text → Operation
  read_directory release_directory : ℕ → Operation
  rename_file : Text → Text → Operation
  control : Operation

unfoldable pub operate : System → ℕ → Operation → Mount → Io Outcome
operate sys block_size (get_attributes path) m = caching_getattr sys path m
operate sys block_size (get_open_attributes fh) m = done (caching_fgetattr sys fh m)
operate sys block_size (check_access path mask) m = caching_access sys path mask m
operate sys block_size (open_file path flags) m = caching_open sys path flags m
operate sys block_size (read_file path size offset fh) m =
    read_handler sys block_size path size offset fh m
operate sys block_size (flush_file fh) m = done (caching_flush sys fh m)
operate sys block_size (release_file fh) m = done (caching_release sys fh m)
operate sys block_size (open_directory path) m = caching_opendir sys path m
operate sys block_size (read_directory fh) m = caching_readdir sys fh m
operate sys block_size (release_directory fh) m = caching_releasedir sys fh m
operate sys block_size (rename_file path newpath) m = rename_handler sys path newpath m
operate sys block_size control m = done (caching_ioctl sys m)

-- The system below may answer differently for each call.
unfoldable pub operations : ℕ → List (System × Operation) → Mount → Io Mount
operations block_size [] m = done m
operations block_size ((sys, o) ∷ rest) m =
    operate sys block_size o m >>= λ r. operations block_size rest r.mount

-- From the mount, `init` first, to the end, `destroy`.
unfoldable pub mounted : System → ℕ → ℕ → List (System × Operation) → Mount → Io Mount
mounted sys num_of_blocks block_size os m =
    operations block_size os (init_handler sys num_of_blocks m).mount >>= λ m1.
    done (caching_destroy sys m1).mount
