-- ===== src/CachingFs/Untouched.antt =====
-- What the handlers of ex4/CachingFileSystem.cpp that only pass a call on add to the log.
use os_huji.Prelude.{
  ℕ, Bool, true, false, Option, none, some, List, [], ◌∷◌, ◌≡◌, refl, if◌then◌else◌,
}
use os_huji.Prelude.Numbers.{Text}
use os_huji.CachingFs.Block.{Io, done, failed, overflow, ◌>>=◌, same_string}
use os_huji.CachingFs.System.{
  Below, refuses, gives, getattr, fgetattr, access, opening, flush, release, opendir,
  unable_to_flush, unable_to_release, Handler, System, Mount, full_path,
}
use os_huji.CachingFs.Handlers.{
  Outcome, caching_getattr, caching_fgetattr, caching_access, caching_open, close_duplicate,
  caching_flush, caching_release, caching_opendir,
}
use os_huji.CachingFs.Number.{OnDone, OnDone-bind}
use os_huji.CachingFs.Frames.{
  Works, Framed, Framed-trans, complain-Framed, announce-Framed, dirs-Framed,
}

module _ (q : Type 0) (hs : List Handler) (m : Mount) where
  abbrev pub After : Outcome → Type 0
  After r = Framed q hs m r.mount

  -- Two outcomes of a call of the system below, with the same rest.
  pub below-After :
      {A : Type 0} (x : Below A) (f : ℕ → Outcome) (g : A → Outcome)
      → ((e : ℕ) → After (f e))
      → ((a : A) → After (g a))
      → After (elim x [ refuses e ↦ f e | gives a ↦ g a ])
  below-After (refuses e) f g h k = h e
  below-After (gives a) f g h k = k a

  pub errno-After :
      (x : Option ℕ) (f : ℕ → Outcome) (r : Outcome)
      → ((e : ℕ) → After (f e))
      → After r
      → After (elim x [ some e ↦ f e | none ↦ r ])
  errno-After (some e) f r h k = h e
  errno-After none f r h k = k

  pub path-After :
      (root path : Text) (k : Text → Io Outcome)
      → ((p : Text) → full_path root path ≡ done p → OnDone After (k p))
      → OnDone After (full_path root path >>= k)
  path-After root path k h =
      OnDone-bind (λ p. full_path root path ≡ done p) After (full_path root path) k
        (itself (full_path root path)) h
    where
      itself : (x : Io Text) → OnDone (λ p. x ≡ done p) x
      itself (done p) = refl
      itself (failed e blocks) = tt
      itself overflow = tt

  pub if-After : (b : Bool) (x y : Outcome) → After x → After y → After (if b then x else y)
  if-After true x y f g = f
  if-After false x y f g = g

pub caching_getattr-Framed :
    (sys : System) (path : Text) (m : Mount)
    → OnDone (After (Works sys) (getattr ∷ []) m) (caching_getattr sys path m)
unfolding caching_getattr
caching_getattr-Framed sys path m =
    path-After (Works sys) (getattr ∷ []) m sys.root path _ (λ fpath _.
      if-After (Works sys) (getattr ∷ []) m (same_string fpath sys.log_path) _ _
        (announce-Framed sys getattr m)
        (below-After (Works sys) (getattr ∷ []) m (sys.lstat fpath) _ _
          (λ e. announce-Framed sys getattr m) (λ st. announce-Framed sys getattr m)))

pub caching_fgetattr-Framed :
    (sys : System) (fh : ℕ) (m : Mount)
    → After (Works sys) (fgetattr ∷ []) m (caching_fgetattr sys fh m)
unfolding caching_fgetattr
caching_fgetattr-Framed sys fh m =
    below-After (Works sys) (fgetattr ∷ []) m (sys.fstat fh) _ _
      (λ e. announce-Framed sys fgetattr m) (λ st. announce-Framed sys fgetattr m)

pub caching_access-Framed :
    (sys : System) (path : Text) (mask : ℕ) (m : Mount)
    → OnDone (After (Works sys) (access ∷ []) m) (caching_access sys path mask m)
unfolding caching_access
caching_access-Framed sys path mask m =
    path-After (Works sys) (access ∷ []) m sys.root path _ (λ fpath _.
      errno-After (Works sys) (access ∷ []) m (sys.may_access fpath mask) _ _
        (λ e. announce-Framed sys access m) (announce-Framed sys access m))

pub caching_open-Framed :
    (sys : System) (path : Text) (flags : ℕ) (m : Mount)
    → OnDone (After (Works sys) (opening ∷ []) m) (caching_open sys path flags m)
unfolding caching_open
caching_open-Framed sys path flags m =
    path-After (Works sys) (opening ∷ []) m sys.root path _ (λ fpath _.
      below-After (Works sys) (opening ∷ []) m (sys.open_file fpath flags) _ _
        (λ e. announce-Framed sys opening m) (λ fd. announce-Framed sys opening m))

pub caching_flush-Framed :
    (sys : System) (fh : ℕ) (m : Mount) → After (Works sys) (flush ∷ []) m (caching_flush sys fh m)
unfolding caching_flush
caching_flush-Framed sys fh m =
    errno-After (Works sys) (flush ∷ []) m (close_duplicate sys fh) _ _
      (λ e.
        Framed-trans (Works sys) (flush ∷ []) [] m _ _ (announce-Framed sys flush m)
          (complain-Framed (Works sys) unable_to_flush _))
      (announce-Framed sys flush m)

pub caching_release-Framed :
    (sys : System) (fh : ℕ) (m : Mount)
    → After (Works sys) (release ∷ []) m (caching_release sys fh m)
unfolding caching_release
caching_release-Framed sys fh m =
    errno-After (Works sys) (release ∷ []) m (sys.close fh) _ _
      (λ e.
        Framed-trans (Works sys) (release ∷ []) [] m _ _ (announce-Framed sys release m)
          (complain-Framed (Works sys) unable_to_release _))
      (announce-Framed sys release m)

pub caching_opendir-Framed :
    (sys : System) (path : Text) (m : Mount)
    → OnDone (After (Works sys) (opendir ∷ []) m) (caching_opendir sys path m)
unfolding caching_opendir
caching_opendir-Framed sys path m =
    path-After (Works sys) (opendir ∷ []) m sys.root path _ (λ fpath _.
      below-After (Works sys) (opendir ∷ []) m (sys.open_directory fpath) _ _
        (λ e.
          Framed-trans (Works sys) (opendir ∷ []) [] m _ _ (announce-Framed sys opendir m)
            (dirs-Framed (Works sys) _ _))
        (λ ns.
          Framed-trans (Works sys) (opendir ∷ []) [] m _ _ (announce-Framed sys opendir m)
            (dirs-Framed (Works sys) _ _)))
