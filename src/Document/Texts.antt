-- ===== src/Document/Texts.antt =====
-- storage/project-document.js: identifiers, times and the beginnings of prompts.
use Prim.Native.Nat.{ℕ, zero, suc, ◌-◌}
use Prim.Native.Char.{Char, code}
use Prim.Native.String.{[] as no_text, ◌∷◌ as char}
use Prim.Native.String.compare.{cons-nil}
use text.Mathlib.Text.{is_eq}
use autonomous_dev_platform.Base.{
  Bool, true, false, ◌&&◌, ◌||◌, Option, none, some, String, ◌≡◌, refl, ap, ◌∙◌, sym, ◌==◌, ltb,
  leb, eqb, if◌then◌else◌, arith, or_else, or_text,
}

abbrev is_hex : ℕ → Bool
is_hex n = (leb 48 n && leb n 57) || ((leb 65 n && leb n 70) || (leb 97 n && leb n 102))

-- A number of hexadecimal digits, and what stands behind them.
unfoldable pub hex_run : ℕ → (String → Bool) → String → Bool
hex_run zero next t = next t
hex_run (suc n) next no_text = false
hex_run (suc n) next (char c t) = is_hex (code c) && hex_run n next t

abbrev dash : (String → Bool) → String → Bool
dash next no_text = false
dash next (char c t) = eqb (code c) 45 && next t

abbrev at_end : String → Bool
at_end no_text = true
at_end (char c t) = false

unfoldable pub is_uuid : String → Bool
unfolding hex_run
is_uuid t =
    hex_run 8 (dash (hex_run 4 (dash (hex_run 4 (dash (hex_run 4 (dash (hex_run 12 at_end)))))))) t

-- `asUuid(value)`, with the random identifier that it may take.
unfoldable pub as_uuid : String → Option String → String
as_uuid fresh none = fresh
as_uuid fresh (some s) = if is_uuid s then s else fresh

-- A value of a column for times: text, or a `Date`, which the database's driver makes of them.
pub data Stamp (Instant : Type 0) : Type 0 where
  as_text : String → Stamp Instant
  as_date : Instant → Stamp Instant

-- `toIso(value)`; `iso` is a date's `toISOString`.
abbrev pub to_iso : {Instant : Type 0} → (Instant → String) → Option (Stamp Instant) → Option String
to_iso iso none = none
to_iso iso (some (as_text s)) = or_else (some s) none
to_iso iso (some (as_date d)) = some (iso d)

-- `a || b` on values of such columns.
abbrev pub or_stamp :
    {Instant : Type 0} → Option (Stamp Instant) → Option (Stamp Instant) → Option (Stamp Instant)
or_stamp none b = b
or_stamp (some (as_text s)) b = if s == "" then b else some (as_text s)
or_stamp (some (as_date d)) b = some (as_date d)

-- A value of a column for JSON, which may come back as text.
pub data Column (A : Type 0) : Type 0 where
  parsed : A → Column A
  unparsed : String → Column A

abbrev value_or {ℓ} : {A : Type ℓ} → Option (Option A) → Option A → Option A
value_or none fallback = fallback
value_or (some value) fallback = value

-- `jsonValue(value, fallback)`; `parse` is `JSON.parse`, which gives nothing where it throws.
abbrev pub json_value :
    {A : Type 0} → (String → Option (Option A)) → Option (Column A) → Option A → Option A
json_value parse none fallback = fallback
json_value parse (some (parsed a)) fallback = some a
json_value parse (some (unparsed s)) fallback = value_or (parse s) fallback

-- The length of a character in JavaScript.
abbrev units : Char → ℕ
units c = if ltb (code c) 65536 then 1 else 2

-- `text.slice(0, n)`. A character that does not fit whole is left out.
unfoldable pub slice_start : String → ℕ → String
slice_start no_text n = no_text
slice_start (char c t) n =
    let rest = slice_start t (n - units c) in if ltb n (units c) then no_text else char c rest

-- `text || null`
abbrev pub or_null : String → Option String
or_null t = if t == "" then none else some t

unfoldable pub prompt_preview : Option String → Option String
unfolding slice_start
prompt_preview prompt =
    let text = or_text prompt "" in if text == "" then none else some (slice_start text 240)

valid_if :
    (b : Bool) (s fresh : String)
    → is_uuid s ≡ b
    → is_uuid fresh ≡ true
    → is_uuid (if b then s else fresh) ≡ true
valid_if true s fresh e h = e
valid_if false s fresh e h = h

as_uuid-valid :
    (fresh : String) (o : Option String) → is_uuid fresh ≡ true → is_uuid (as_uuid fresh o) ≡ true
unfolding as_uuid
as_uuid-valid fresh none h = h
as_uuid-valid fresh (some s) h = valid_if (is_uuid s) s fresh refl h

-- An identifier that was stored is kept.
pub as_uuid_stable :
    (fresh other : String) (o : Option String)
    → is_uuid fresh ≡ true
    → as_uuid other (some (as_uuid fresh o)) ≡ as_uuid fresh o
unfolding as_uuid
as_uuid_stable fresh other o h =
    ap (λ b. if b then as_uuid fresh o else other) (as_uuid-valid fresh o h)

slice_if :
    (b : Bool) (c : Char) (t : String) (n : ℕ)
    → ltb n (units c) ≡ b
    → slice_start (slice_start t (n - units c)) (n - units c) ≡ slice_start t (n - units c)
    → slice_start (if b then no_text else char c (slice_start t (n - units c))) n
      ≡ (if b then no_text else char c (slice_start t (n - units c)))
unfolding slice_start
slice_if true c t n e h = refl
slice_if false c t n e h =
    ap
      (λ b. if b then no_text else char c (slice_start (slice_start t (n - units c)) (n - units c)))
      e
    ∙ ap (char c) h

slice_start_stable : (t : String) (n : ℕ) → slice_start (slice_start t n) n ≡ slice_start t n
unfolding slice_start
slice_start_stable no_text n = refl
slice_start_stable (char c t) n =
    slice_if (ltb n (units c)) c t n refl (slice_start_stable t (n - units c))

not_empty : (c : Char) (t : String) → (char c t == "") ≡ false
not_empty c t = λ i. is_eq (cons-nil c t i)

fits : (c : Char) → ltb 240 (units c) ≡ false
fits c = ground arith

abbrev preview_of : String → Option String
preview_of t = if t == "" then none else some (slice_start t 240)

start_not_empty :
    (b : Bool) (c : Char) (t : String)
    → ltb 240 (units c) ≡ b
    → b ≡ false
    → (slice_start (char c t) 240 == "") ≡ false
unfolding slice_start
start_not_empty true c t e h = cc
start_not_empty false c t e h =
    ap (λ b. (if b then no_text else char c (slice_start t (240 - units c))) == "") e
    ∙ not_empty c (slice_start t (240 - units c))

-- A text that has a beginning has one that is not empty.
start_again :
    (c : Char) (t : String)
    → preview_of (or_text (some (slice_start (char c t) 240)) "")
      ≡ some (slice_start (char c t) 240)
start_again c t =
    let e = start_not_empty (ltb 240 (units c)) c t refl (fits c) in
    let start = slice_start (char c t) 240 in
    ap (λ b. preview_of (if b then "" else start)) e
    ∙ ap (λ b. if b then none else some (slice_start start 240)) e
    ∙ ap (λ s. some s) (slice_start_stable (char c t) 240)

preview_again : (t : String) → preview_of (or_text (preview_of t) "") ≡ preview_of t
preview_again no_text = refl
preview_again (char c t) =
    ap (λ b. preview_of (or_text (if b then none else some (slice_start (char c t) 240)) ""))
      (not_empty c t)
    ∙ start_again c t
    ∙ sym (ap (λ b. if b then none else some (slice_start (char c t) 240)) (not_empty c t))

pub prompt_preview_stable :
    (prompt : Option String) → prompt_preview (prompt_preview prompt) ≡ prompt_preview prompt
unfolding prompt_preview
prompt_preview_stable prompt = preview_again (or_text prompt "")

null_if :
    (b : Bool) (s : String)
    → (s == "") ≡ b
    → or_else (if b then none else some s) none ≡ (if b then none else some s)
null_if true s e = refl
null_if false s e = ap (λ b. if b then none else some s) e

pub or_else_stable : (a : Option String) → or_else (or_else a none) none ≡ or_else a none
or_else_stable none = refl
or_else_stable (some s) = null_if (s == "") s refl
