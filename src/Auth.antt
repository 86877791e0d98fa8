-- ===== src/Auth.antt =====
-- auth/rate-limit.js: how often a client may call in a window of time. The clock is an argument, and
-- the buckets are a function of the key, which is empty where there is no bucket.
pub mod Limited
mod Examples
use Prim.Native.Char.{code}
use Prim.Native.String.{[] as no_text, ◌∷◌ as char, ◌++◌ as concat}
use autonomous_dev_platform.Base.{
  ℕ, ◌+◌, ◌-◌, Bool, Option, none, some, String, List, [], ◌∷◌, ◌++◌, ◌==◌, ltb, leb, length,
  select, if◌then◌else◌, eqb, or_text, trim,
}

abbrev pub Buckets : Type 0
Buckets = String → List ℕ

pub data RateAnswer : Type 0 where
  allowed : ℕ → RateAnswer  -- how many calls remain
  limited : Option ℕ → RateAnswer  -- when to try again; not a number without a call in the window

-- `now - at < windowMs`
abbrev pub in_window : ℕ → ℕ → ℕ → Bool
in_window window now at = ltb now (at + window)

abbrev retry_after : ℕ → ℕ → List ℕ → Option ℕ
retry_after window now [] = none
retry_after window now (at ∷ _) = some ((at + window) - now)

-- The answer to a call whose bucket has these calls in the window, and the bucket after it.
unfoldable pub limit_fresh : ℕ → ℕ → ℕ → List ℕ → RateAnswer × List ℕ
limit_fresh window max now fresh =
    if leb max (length fresh)
    then (limited (retry_after window now fresh), fresh)
    else (allowed (max - (length fresh + 1)), fresh ++ (now ∷ []))

unfoldable pub rate_limit : String → ℕ → ℕ → ℕ → Buckets → RateAnswer × Buckets
unfolding limit_fresh
rate_limit key window max now buckets =
    let r = limit_fresh window max now (select (in_window window now) (buckets key)) in
    (r.0, λ k. if k == key then r.1 else buckets k)

-- `text.split(',')[0]`
abbrev before_comma : String → String
before_comma no_text = no_text
before_comma (char c t) =
    let rest = before_comma t in if eqb (code c) 44 then no_text else char c rest

-- The bucket's key: the action and the first address, as the request's headers or its socket say it.
unfoldable pub client_key : Option String → Option String → String → String
unfolding trim
client_key forwarded remote action =
    concat action (concat ":" (trim (before_comma (or_text forwarded (or_text remote "local")))))
