-- ===== src/Prelude/Signed.antt =====
-- The C type `int` where a value may be negative: return codes and checked arguments.
use Prim.Native.Nat.{ℕ}

-- `negsuc n` is -(n + 1).
pub data ℤ : Type 0 where
  pos : ℕ → ℤ
  negsuc : ℕ → ℤ

-- The codes that every exercise uses: `#define SUCCESS 0` and `#define FAIL -1`.
abbrev pub success : ℤ
success = pos 0

abbrev pub fail : ℤ
fail = negsuc 0
