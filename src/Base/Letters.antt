-- ===== src/Base/Letters.antt =====
-- `strings.ToLower` on ASCII text, which kinds are, and `strings.HasSuffix`, the suffix first.
use Prim.Native.Char.{Char, code}
use Prim.Native.String.{String, [], ◌∷◌}
use Prim.Native.Nat.{◌-◌}
use mathlib.Core.Bool.{Bool, ◌&&◌, ◌||◌}
use text.Mathlib.Text.{◌==◌}
use kausality.Base.Tests.{leb, if◌then◌else◌}
use kausality.Base.Digits.{nth}

unfoldable pub lower : Char → Char
unfolding nth
lower c =
    let n = code c in
    if leb b'A' n && leb n b'Z' then nth "abcdefghijklmnopqrstuvwxyz" (n - b'A') else c

unfoldable pub to_lower : String → String
unfolding lower
to_lower [] = []
to_lower (c ∷ s) = lower c ∷ to_lower s

unfoldable pub has_suffix : String → String → Bool
has_suffix suffix [] = suffix == []
has_suffix suffix (c ∷ s) = (suffix == (c ∷ s)) || has_suffix suffix s
