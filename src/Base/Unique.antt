-- ===== src/Base/Unique.antt =====
-- `[...new Set(reasons)]`: the first occurrence of each reason, in order.
use Prim.Native.String.{String}
use mathlib.Core.Path.{◌≡◌, refl}
use mathlib.Core.Bool.{Bool, true, false, not, ◌||◌, ◌&&◌}
use mathlib.Core.List.{List, [], ◌∷◌, ◌++◌}
use native.Mathlib.Omega.{arith}
use text.Mathlib.Text.{◌==◌}
use text.Mathlib.TextEquality.{eq_iff}
use autonomous_dev_platform.Base.Tests.{if◌then◌else◌}

abbrev pub includes : String → List String → Bool
includes r [] = false
includes r (x ∷ xs) = (x == r) || includes r xs

abbrev pub without : String → List String → List String
without r [] = []
without r (x ∷ xs) = let rest = without r xs in if x == r then rest else x ∷ rest

abbrev pub unique : List String → List String
unique [] = []
unique (x ∷ xs) = x ∷ without x (unique xs)

-- `if (b) reasons.push(r)`
abbrev pub when : Bool → String → List String
when true r = r ∷ []
when false r = []

abbrev pub is_empty {ℓ} : {A : Type ℓ} → List A → Bool
is_empty [] = true
is_empty (_ ∷ _) = false

pub unique_empty : (xs : List String) → is_empty (unique xs) ≡ is_empty xs
unique_empty [] = refl
unique_empty (x ∷ xs) = refl

pub includes-without :
    (r x : String) (xs : List String)
    → includes r (without x xs) ≡ (if x == r then false else includes r xs)
includes-without r x [] = ground arith
includes-without r x (y ∷ ys) =
    ground (arith, includes-without r x ys, eq_iff y x, eq_iff y r, eq_iff x r)

-- A set has the elements of the list that it is made of.
pub includes-unique : (r : String) (xs : List String) → includes r (unique xs) ≡ includes r xs
includes-unique r [] = refl
includes-unique r (x ∷ xs) = ground (arith, includes-unique r xs, includes-without r x (unique xs))

pub includes-append :
    (r : String) (xs ys : List String) → includes r (xs ++ ys) ≡ (includes r xs || includes r ys)
includes-append r [] ys = refl
includes-append r (x ∷ xs) ys = ground (arith, includes-append r xs ys)

pub is_empty-append : (xs ys : List String) → is_empty (xs ++ ys) ≡ (is_empty xs && is_empty ys)
is_empty-append [] ys = refl
is_empty-append (x ∷ xs) ys = refl

pub is_empty-when : (b : Bool) (r : String) → is_empty (when b r) ≡ not b
is_empty-when true r = refl
is_empty-when false r = refl

pub is_empty-if :
    (b : Bool) (xs : List String) → is_empty (if b then xs else []) ≡ (not b || is_empty xs)
is_empty-if true xs = refl
is_empty-if false xs = refl

pub is_empty-unless :
    (b : Bool) (xs : List String) → is_empty (if b then [] else xs) ≡ (b || is_empty xs)
is_empty-unless true xs = refl
is_empty-unless false xs = refl

pub append_empty : (xs ys : List String) → is_empty (xs ++ ys) ≡ true → is_empty ys ≡ true
append_empty [] ys h = h
append_empty (x ∷ xs) ys h = ground arith

pub append_empty_left : (xs ys : List String) → is_empty (xs ++ ys) ≡ true → is_empty xs ≡ true
append_empty_left [] ys h = refl
append_empty_left (x ∷ xs) ys h = h

pub eq_comm : (a b : String) → (a == b) ≡ (b == a)
eq_comm a b = ground (arith, eq_iff a b, eq_iff b a)
