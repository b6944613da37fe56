-- ===== src/Prelude/Strings.antt =====
-- C strings: the bytes of a buffer up to its first zero.
use Prim.Native.Nat.{ℕ, ◌<◌}
use mathlib.Core.Path.{◌≡◌, refl}
use mathlib.Core.List.{List, [], ◌∷◌}
use native.Mathlib.Omega.{arith}
use os_huji.Prelude.Tests.{◌==◌, if◌then◌else◌}
use os_huji.Prelude.Lists.{All}

-- What a C string function reads of a buffer.
unfoldable pub c_string : List ℕ → List ℕ
c_string [] = []
c_string (b ∷ bs) = if b == 0 then [] else b ∷ c_string bs

-- No zero byte, which would end a C string.
abbrev pub ZeroFree : List ℕ → Type 0
ZeroFree bs = All (λ b. 0 < b) bs

pub c_string_of_ZeroFree : (bs : List ℕ) → ZeroFree bs → c_string bs ≡ bs
unfolding c_string
c_string_of_ZeroFree [] h = refl
c_string_of_ZeroFree (b ∷ bs) h = ground (arith, h.0, c_string_of_ZeroFree bs h.1)
