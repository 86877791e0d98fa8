-- ===== src/Policy/Boundary.antt =====
-- git/boundary.js: whether a path lies in a directory. `resolve` stands for the file system, which
-- makes a path absolute and follows its links; the platform is none that ignores the case of paths.
use Prim.Native.Char.{code}
use Prim.Native.String.{[] as no_text, ◌∷◌ as char, ◌++◌ as concat}
use autonomous_dev_platform.Base.{
  Bool, true, false, not, ◌&&◌, ◌||◌, String, ◌==◌, eqb, begins, ends, exact, if◌then◌else◌, ◌≡◌,
  refl,
}

-- `[\\/]`
abbrev is_separator : String → Bool
is_separator no_text = false
is_separator (char c t) = eqb (code c) 47 || eqb (code c) 92

-- `\.\.([\\/]|$)` at the beginning.
abbrev is_parent : String → Bool
is_parent no_text = false
is_parent (char c no_text) = false
is_parent (char c (char d t)) = eqb (code c) 46 && (eqb (code d) 46 && (t == "" || is_separator t))

abbrev has_parent : String → Bool
has_parent no_text = false
has_parent (char c t) = is_separator (char c t) && is_parent t || has_parent t

-- A part of the path is `..`.
unfoldable pub goes_up : String → Bool
goes_up t = is_parent t || has_parent t

unfoldable pub is_inside_root : (String → String) → String → String → Bool
unfolding goes_up
is_inside_root resolve target root =
    let with_separator : String → String =
      λ s. if ends exact "/" (resolve s) then resolve s else concat (resolve s) "/" in
    not (target == "")
    && not (root == "")
    && not (goes_up target)
    && (with_separator target == with_separator root
        || begins exact (with_separator root) (with_separator target))

inside_test : is_inside_root (λ s. s) "/work/src/a.js" "/work" ≡ true
unfolding is_inside_root
inside_test = refl

beside_test : is_inside_root (λ s. s) "/workshop" "/work" ≡ false
unfolding is_inside_root
beside_test = refl

above_test : is_inside_root (λ s. s) "/work/../x" "/work" ≡ false
unfolding is_inside_root
above_test = refl
