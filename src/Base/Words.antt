-- ===== src/Base/Words.antt =====
-- The words of a text do not depend on the white space around it.
use Prim.Native.Char.{Char, code}
use Prim.Native.String.{String, [] as no_text, ◌∷◌ as char}
use mathlib.Core.Path.{◌≡◌, refl, ap, ◌∙◌}
use mathlib.Core.Bool.{Bool, true, false, ◌&&◌}
use mathlib.Core.List.{List}
use autonomous_dev_platform.Base.Tests.{if◌then◌else◌}
use autonomous_dev_platform.Base.Search.{split_words, Split, with_word, words}
use autonomous_dev_platform.Base.Trim.{trim, trim_start, trim_end, is_space, no_characters}

abbrev all_words : Split → List String
all_words r = with_word r.open_word r.closed

-- The words of a text that begins with a character, which is white space or is not.
abbrev split_if : Bool → Char → Split → Split
split_if space c r =
    if space
    then record { open_word = no_text; closed = all_words r }
    else record { open_word = char c r.open_word; closed = r.closed }

no_characters-no_text : (s : String) → no_characters s ≡ true → s ≡ no_text
no_characters-no_text no_text h = refl
no_characters-no_text (char c s) h = cc

start_if :
    (b : Bool) (c : Char) (s : String)
    → b ≡ is_space (code c)
    → words (trim_start s) ≡ words s
    → words (if b then trim_start s else char c s) ≡ words (char c s)
unfolding words
start_if true c s e ih = ih ∙ ap (λ b. all_words (split_if b c (split_words s))) e
start_if false c s e ih = refl

words-trim_start : (s : String) → words (trim_start s) ≡ words s
words-trim_start no_text = refl
words-trim_start (char c s) = start_if (is_space (code c)) c s refl (words-trim_start s)

-- What is left of a character in front of the trimmed rest.
end_if :
    (b : Bool) (c : Char) (s rest : String)
    → b ≡ is_space (code c)
    → split_words rest ≡ split_words s
    → split_words (if no_characters rest && b then no_text else char c rest)
      ≡ split_words (char c s)
end_if true c s no_text e ih =
    ap (λ r. split_if true c r) ih ∙ ap (λ b. split_if b c (split_words s)) e
end_if true c s (char d rest) e ih = ap (λ r. split_if (is_space (code c)) c r) ih
end_if false c s no_text e ih = ap (λ r. split_if (is_space (code c)) c r) ih
end_if false c s (char d rest) e ih = ap (λ r. split_if (is_space (code c)) c r) ih

split_words-trim_end : (s : String) → split_words (trim_end s) ≡ split_words s
split_words-trim_end no_text = refl
split_words-trim_end (char c s) =
    end_if (is_space (code c)) c s (trim_end s) refl (split_words-trim_end s)

pub words-trim : (s : String) → words (trim s) ≡ words s
unfolding trim words
words-trim s =
    words-trim_start (trim_end s) ∙ ap (λ (r : Split). all_words r) (split_words-trim_end s)
