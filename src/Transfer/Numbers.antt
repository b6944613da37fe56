-- ===== src/Transfer/Numbers.antt =====
-- `isInteger`, which is the same in ex5/srftp.cpp and ex5/clftp.cpp.
use os_huji.Prelude.{[], ◌∷◌, Bool, false, not, ◌&&◌, ◌==◌, if◌then◌else◌}
use os_huji.Prelude.Numbers.{is_digit, is_empty, strtol, Text}

unfoldable pub is_integer : Text → Bool
is_integer [] = false
is_integer (c ∷ s) =
    if not (is_digit c) && not (c == b'-') && not (c == b'+')
    then false
    else is_empty (strtol (c ∷ s)).1
