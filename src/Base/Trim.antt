-- ===== src/Base/Trim.antt =====
-- `text.trim()`: the white space and the line ends that JavaScript removes at both ends.
use Prim.Native.Nat.{ℕ}
use Prim.Native.Char.{code}
use Prim.Native.String.{String, [], ◌∷◌}
use mathlib.Core.Path.{◌≡◌, refl}
use mathlib.Core.Bool.{Bool, true, false, ◌||◌, ◌&&◌}
use autonomous_dev_platform.Base.Tests.{leb, eqb, if◌then◌else◌}

abbrev pub is_space : ℕ → Bool
is_space n =
    leb 9 n && leb n 13
    || eqb n 32
    || eqb n 160
    || eqb n 5760
    || leb 8192 n && leb n 8202
    || eqb n 8232
    || eqb n 8233
    || eqb n 8239
    || eqb n 8287
    || eqb n 12288
    || eqb n 65279

abbrev pub no_characters : String → Bool
no_characters [] = true
no_characters (_ ∷ _) = false

abbrev pub trim_start : String → String
trim_start [] = []
trim_start (c ∷ s) = let rest = trim_start s in if is_space (code c) then rest else c ∷ s

abbrev pub trim_end : String → String
trim_end [] = []
trim_end (c ∷ s) =
    let rest = trim_end s in if no_characters rest && is_space (code c) then [] else c ∷ rest

unfoldable pub trim : String → String
trim s = trim_start (trim_end s)

trim_test : trim "  a b\n " ≡ "a b"
unfolding trim
trim_test = refl
