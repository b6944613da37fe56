-- ===== src/CachingFs/Frames.antt =====
-- What the handlers of ex4/CachingFileSystem.cpp add to the log and leave as it is.
use os_huji.Prelude.{
  append-nil, append_assoc, ◌≡◌, refl, ap, sym, ◌∙◌, Bool, true, false, not, Option, List, [], ◌∷◌,
  ◌++◌, length, if◌then◌else◌, ℤ, arith,
}
use os_huji.CachingFs.Block.{CacheBlock}
use os_huji.CachingFs.System.{
  System, Handler, LogLine, Complaint, called, block_row, cannot_open_log, cannot_write_log,
  cannot_close_log, CacheDir, Mount, complain, write_to_log, announce,
}

-- The second list is the first with something behind it.
abbrev pub Extends {ℓ} : {A : Type ℓ} → List A → List A → Type ℓ
Extends {A = A} xs ys = (more : List A) × (ys ≡ xs ++ more)

Extends-refl {ℓ} : {A : Type ℓ} (xs : List A) → Extends xs xs
Extends-refl xs = ([], sym (append-nil xs))

Extends-trans {ℓ} : {A : Type ℓ} (xs ys zs : List A) → Extends xs ys → Extends ys zs → Extends xs zs
Extends-trans xs ys zs (a, e) (b, f) = (a ++ b, f ∙ ap (λ q. q ++ b) e ∙ append_assoc xs a b)

-- The handlers that a log names, in its order.
abbrev pub handler_of : LogLine → List Handler
handler_of (called time h) = h ∷ []
handler_of (block_row row) = []

abbrev pub handlers : List LogLine → List Handler
handlers [] = []
handlers (line ∷ lines) = handler_of line ++ handlers lines

handlers-append : (xs ys : List LogLine) → handlers (xs ++ ys) ≡ handlers xs ++ handlers ys
handlers-append [] ys = refl
handlers-append (x ∷ xs) ys =
    ap (λ hs. handler_of x ++ hs) (handlers-append xs ys)
    ∙ sym (append_assoc (handler_of x) (handlers xs) (handlers ys))

-- The stream of the log works.
abbrev pub Works : System → Type 0
Works sys = (sys.stream.opens ≡ true) × (sys.stream.writes ≡ true) × (sys.stream.closes ≡ true)

-- The number of blocks stays, the messages only grow, and under the condition `q` the handlers `hs`
-- are added to those of the log.
pub record Framed (q : Type 0) (hs : List Handler) (m m' : Mount) : Type 0 where
  pub number : length m'.blocks ≡ length m.blocks
  pub complaints : Extends m.complaints m'.complaints
  pub logged : q → handlers m'.log ≡ handlers m.log ++ hs

-- A state with the same messages and the same log.
pub same-Framed :
    (q : Type 0) (m m' : Mount)
    → length m'.blocks ≡ length m.blocks
    → m'.complaints ≡ m.complaints
    → m'.log ≡ m.log
    → Framed q [] m m'
same-Framed q m m' e c l = record {
  number = e;
  complaints = ([], c ∙ sym (append-nil m.complaints));
  logged = λ _. ap handlers l ∙ sym (append-nil (handlers m.log));
}

pub Framed-refl : (q : Type 0) (m : Mount) → Framed q [] m m
Framed-refl q m = same-Framed q m m refl refl refl

pub Framed-trans :
    (q : Type 0) (hs hs' : List Handler) (m m1 m2 : Mount)
    → Framed q hs m m1
    → Framed q hs' m1 m2
    → Framed q (hs ++ hs') m m2
Framed-trans q hs hs' m m1 m2 f g = record {
  number = g.number ∙ f.number;
  complaints = Extends-trans m.complaints m1.complaints m2.complaints f.complaints g.complaints;
  logged =
      λ h. g.logged h ∙ ap (λ xs. xs ++ hs') (f.logged h) ∙ append_assoc (handlers m.log) hs hs';
}

-- Under a stronger condition.
pub Framed-when :
    (q q' : Type 0) (hs : List Handler) (m m' : Mount)
    → (q' → q)
    → Framed q hs m m'
    → Framed q' hs m m'
Framed-when q q' hs m m' k f = record {
  number = f.number;
  complaints = f.complaints;
  logged = λ h. f.logged (k h);
}

pub complain-Framed : (q : Type 0) (c : Complaint) (m : Mount) → Framed q [] m (complain c m)
complain-Framed q c m = record {
  number = refl;
  complaints = (c ∷ [], refl);
  logged = λ _. sym (append-nil (handlers m.log));
}

logged-line :
    (line : LogLine) (log : List LogLine)
    → handlers (log ++ line ∷ []) ≡ handlers log ++ handler_of line
logged-line line log =
    handlers-append log (line ∷ []) ∙ ap (λ hs. handlers log ++ hs) (append-nil (handler_of line))

if-Framed :
    (q : Type 0) (hs : List Handler) (m : Mount) (b : Bool) (x y : ℤ × Mount)
    → (b ≡ true → Framed q hs m x.1)
    → (b ≡ false → Framed q hs m y.1)
    → Framed q hs m (if b then x else y).1
if-Framed q hs m true x y f g = f refl
if-Framed q hs m false x y f g = g refl

-- A complaint, where the condition excludes it.
excluded-Framed :
    (q : Type 0) (hs : List Handler) (c : Complaint) (m m1 : Mount)
    → length m1.blocks ≡ length m.blocks
    → m1.complaints ≡ m.complaints
    → (q → ⊥)
    → Framed q hs m (complain c m1)
excluded-Framed q hs c m m1 e same h = record {
  number = e;
  complaints = (c ∷ [], ap (λ cs. cs ++ c ∷ []) same);
  logged = λ p. absurd (h p);
}

written-Framed :
    (q : Type 0) (line : LogLine) (m : Mount)
    → Framed q (handler_of line) m (record m { log = m.log ++ line ∷ [] })
written-Framed q line m = record {
  number = refl;
  complaints = Extends-refl m.complaints;
  logged = λ _. logged-line line m.log;
}

pub write_to_log-Framed :
    (sys : System) (line : LogLine) (m : Mount)
    → Framed (Works sys) (handler_of line) m (write_to_log sys line m).1
unfolding write_to_log
write_to_log-Framed sys line m =
    let q = Works sys in
    let hs = handler_of line in
    if-Framed q hs m (not sys.stream.opens) _ _
      (λ e. excluded-Framed q hs cannot_open_log m m refl refl (λ w. ground (arith, e, w.0)))
      (λ _.
        if-Framed q hs m (not sys.stream.writes) _ _
          (λ e. excluded-Framed q hs cannot_write_log m m refl refl (λ w. ground (arith, e, w.1)))
          (λ _.
            if-Framed q hs m (not sys.stream.closes) _ _
              (λ e.
                excluded-Framed q hs cannot_close_log m (record m { log = m.log ++ line ∷ [] }) refl
                  refl (λ w. ground (arith, e, w.2)))
              (λ _. written-Framed q line m)))

pub announce-Framed :
    (sys : System) (h : Handler) (m : Mount) → Framed (Works sys) (h ∷ []) m (announce sys h m)
announce-Framed sys h m = write_to_log-Framed sys (called sys.now h) m

pub dirs-Framed :
    (q : Type 0) (m : Mount) (dirs : List (Option CacheDir))
    → Framed q [] m (record m { dirs = dirs })
dirs-Framed q m dirs = same-Framed q m (record m { dirs = dirs }) refl refl refl

pub blocks-Framed :
    (q : Type 0) (m : Mount) (blocks : List CacheBlock)
    → length blocks ≡ length m.blocks
    → Framed q [] m (record m { blocks = blocks })
blocks-Framed q m blocks e = same-Framed q m (record m { blocks = blocks }) e refl refl
