-- ===== src/Base/Search.antt =====
-- How the program looks for texts within a text: `includes`, `startsWith`, and the alternatives and
-- word boundaries of its regular expressions. A pattern is in ASCII.
use Prim.Native.Nat.{ℕ, ◌+◌}
use Prim.Native.Char.{code}
use Prim.Native.String.{String, [] as no_text, ◌∷◌ as char, ◌++◌}
use mathlib.Core.Path.{◌≡◌, refl}
use mathlib.Core.Bool.{Bool, true, false, not, ◌||◌, ◌&&◌}
use mathlib.Core.List.{List, [], ◌∷◌}
use autonomous_dev_platform.Base.Tests.{leb, eqb, if◌then◌else◌}
use autonomous_dev_platform.Base.Trim.{is_space, no_characters}

-- No flag.
abbrev pub exact : ℕ → ℕ
exact n = n

-- The flag `i`: no letter but an ASCII one is taken for an ASCII letter.
abbrev pub ignore_case : ℕ → ℕ
ignore_case n = if leb 65 n && leb n 90 then n + 32 else n

-- `toLowerCase()`, which makes a `k` of the Kelvin sign too.
abbrev pub lower_case : ℕ → ℕ
lower_case n = if eqb n 8490 then 107 else ignore_case n

module _ (fold : ℕ → ℕ) where
  abbrev pub begins : String → String → Bool
  begins no_text t = true
  begins (char c p) no_text = false
  begins (char c p) (char d t) = eqb (code c) (fold (code d)) && begins p t

  abbrev pub same : String → String → Bool
  same no_text no_text = true
  same no_text (char d t) = false
  same (char c p) no_text = false
  same (char c p) (char d t) = eqb (code c) (fold (code d)) && same p t

  abbrev pub contains : String → String → Bool
  contains p no_text = begins p no_text
  contains p (char d t) = begins p (char d t) || contains p t

  abbrev pub contains_any : List String → String → Bool
  contains_any [] t = false
  contains_any (p ∷ ps) t = contains p t || contains_any ps t

  abbrev pub ends : String → String → Bool
  ends p no_text = same p no_text
  ends p (char d t) = same p (char d t) || ends p t

  abbrev pub same_any : List String → String → Bool
  same_any [] t = false
  same_any (p ∷ ps) t = same p t || same_any ps t

  -- A pattern followed by another one, which reads what stands behind it.
  abbrev pub after : String → (String → Bool) → String → Bool
  after no_text next t = next t
  after (char c p) next no_text = false
  after (char c p) next (char d t) = eqb (code c) (fold (code d)) && after p next t

-- `\s+` followed by another pattern.
abbrev pub spaces : (String → Bool) → String → Bool
spaces next no_text = false
spaces next (char c t) = is_space (code c) && (next t || spaces next t)

-- `.*` followed by another pattern: the dot stands for no line end.
abbrev pub anything : (String → Bool) → String → Bool
anything next no_text = next no_text
anything next (char c t) =
    next (char c t)
    || (not (eqb (code c) 10 || (eqb (code c) 13 || (eqb (code c) 8232 || eqb (code c) 8233)))
        && anything next t)

-- A pattern anywhere in a text.
abbrev pub somewhere : (String → Bool) → String → Bool
somewhere pattern no_text = pattern no_text
somewhere pattern (char c t) = pattern (char c t) || somewhere pattern t

abbrev pub is_slash : ℕ → Bool
is_slash n = eqb n 47 || eqb n 92

abbrev pub has_slash : String → Bool
has_slash no_text = false
has_slash (char c t) = is_slash (code c) || has_slash t

-- What stands behind the last slash or backslash: `replace(/^.*[/\\]/, '')`.
abbrev pub base_name : String → String
base_name no_text = no_text
base_name (char c t) =
    let rest = base_name t in
    if has_slash t then rest else if is_slash (code c) then t else char c t

-- `\w`
abbrev is_word : ℕ → Bool
is_word n =
    (leb 48 n && leb n 57) || ((leb 65 n && leb n 90) || (eqb n 95 || (leb 97 n && leb n 122)))

abbrev word_ends : String → Bool
word_ends no_text = true
word_ends (char c t) = not (is_word (code c))

-- The pattern is the text's beginning, and a word ends there.
abbrev begins_word : String → String → Bool
begins_word no_text t = word_ends t
begins_word (char c p) no_text = false
begins_word (char c p) (char d t) = eqb (code c) (ignore_case (code d)) && begins_word p t

abbrev begins_words : List String → String → Bool
begins_words [] t = false
begins_words (p ∷ ps) t = begins_word p t || begins_words ps t

-- `/\b(p|…)\b/i`, after a character that is part of a word, or is not.
abbrev has_word_after : Bool → List String → String → Bool
has_word_after inside ps no_text = false
has_word_after inside ps (char d t) =
    (not inside && begins_words ps (char d t)) || has_word_after (is_word (code d)) ps t

-- `/\bhttps?:\/\//i`
abbrev has_url_after : Bool → String → Bool
has_url_after inside no_text = false
has_url_after inside (char d t) =
    (not inside
      && (begins ignore_case "http://" (char d t) || begins ignore_case "https://" (char d t)))
    || has_url_after (is_word (code d)) t

abbrev pub has_url : String → Bool
has_url t = has_url_after false t

abbrev pub has_word : List String → String → Bool
has_word ps t = has_word_after false ps t

-- A list of the words that a text is made of: `text.split(/\s+/)`, without empty texts.
abbrev pub with_word : String → List String → List String
with_word w ws = if no_characters w then ws else w ∷ ws

-- The open word, and the words behind it.
pub record Split : Type 0 where
  pub open_word : String
  pub closed : List String

abbrev pub split_words : String → Split
split_words no_text = record { open_word = no_text; closed = [] }
split_words (char c t) =
    let rest = split_words t in
    if is_space (code c)
    then record { open_word = no_text; closed = with_word rest.open_word rest.closed }
    else record { open_word = char c rest.open_word; closed = rest.closed }

unfoldable pub words : String → List String
words t = let s = split_words t in with_word s.open_word s.closed

-- `parts.join(' ')`
abbrev pub spaced : List String → String
spaced [] = ""
spaced (w ∷ []) = w
spaced (w ∷ (v ∷ ws)) = w ++ (" " ++ spaced (v ∷ ws))

words_test : words " git  add . " ≡ ("git" ∷ ("add" ∷ ("." ∷ [])))
unfolding words
words_test = refl

has_word_test : has_word ("test" ∷ ("lint" ∷ [])) "run TEST:all" ≡ true
has_word_test = refl

has_no_word_test : has_word ("test" ∷ []) "contest tests" ≡ false
has_no_word_test = refl
