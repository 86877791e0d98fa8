-- ===== src/Auth/Limited.antt =====
-- No window of time has more allowed calls of a client than the limit.
use text.Mathlib.TextPositions.{eq_refl}
use autonomous_dev_platform.Base.{
  ℕ, ◌+◌, ◌≤◌, ◌<◌, Bool, true, false, Option, String, List, [], ◌∷◌, ◌++◌, ◌==◌, ◌≡◌, refl, ap,
  arith, leb, length, length-append, select, if◌then◌else◌,
}
use autonomous_dev_platform.Auth.{
  Buckets, RateAnswer, allowed, limited, in_window, limit_fresh, rate_limit,
}

-- What is in the window of a later time is in the window now.
narrower :
    (window t now at : ℕ) → t ≤ now → in_window window now at ≡ true → in_window window t at ≡ true
narrower window t now at h k = ground arith

module _ {p q : ℕ → Bool} (inside : (a : ℕ) → p a ≡ true → q a ≡ true) where
  twice : (xs : List ℕ) → select p (select q xs) ≡ select p xs
  twice [] = refl
  twice (x ∷ xs) = ground (arith, twice xs, inside x)

  fewer : (xs : List ℕ) → length (select p xs) ≤ length (select q xs)
  fewer [] = omega arith
  fewer (x ∷ xs) = ground (arith, fewer xs, inside x)

select-append : (p : ℕ → Bool) (xs ys : List ℕ) → select p (xs ++ ys) ≡ select p xs ++ select p ys
select-append p [] ys = refl
select-append p (x ∷ xs) ys = ground (arith, select-append p xs ys)

one_at_most : (p : ℕ → Bool) (x : ℕ) → length (select p (x ∷ [])) ≤ 1
one_at_most p x = ground arith

room : {m a b c : ℕ} → a < m → a ≡ b → c ≤ 1 → b + c ≤ m
room h k l = omega arith

below_limit : (a b : ℕ) → leb a b ≡ false → b < a
below_limit a b h = ground arith

-- At a time, a bucket holds the allowed calls of its window, which are no more than the limit.
record Fits (window max now : ℕ) (bucket granted : List ℕ) : Type 0 where
  same : select (in_window window now) bucket ≡ select (in_window window now) granted
  few : length (select (in_window window now) granted) ≤ max

later :
    (window max t now : ℕ) (bucket granted : List ℕ)
    → t ≤ now
    → Fits window max t bucket granted
    → Fits window max now bucket granted
later window max t now bucket granted h f =
    let inside : (at : ℕ) → in_window window now at ≡ true → in_window window t at ≡ true =
      λ at. narrower window t now at h in
    let fresh : select (in_window window now) (select (in_window window t) bucket)
        ≡ select (in_window window now) (select (in_window window t) granted) =
      ap (select (in_window window now)) f.same in
    record {
      same = let left = twice inside bucket in let right = twice inside granted in cc;
      few = omega (arith, fewer inside granted, f.few);
    }

-- The calls of a client that were allowed, with one more if the answer allows it.
abbrev granted_after : ℕ → RateAnswer → List ℕ → List ℕ
granted_after now (allowed n) g = g ++ (now ∷ [])
granted_after now (limited r) g = g

module _ (window max now : ℕ) (bucket granted : List ℕ)
    (f : Fits window max now bucket granted) where
  abbrev fresh : List ℕ
  fresh = select (in_window window now) bucket

  refresh : select (in_window window now) fresh ≡ select (in_window window now) granted
  refresh = rw (twice (λ at h. h) bucket) f.same

  fits_if :
      (full : Bool) (r : Option ℕ) (n : ℕ)
      → leb max (length fresh) ≡ full
      → let x : RateAnswer × List ℕ =
          if full then (limited r, fresh) else (allowed n, fresh ++ (now ∷ [])) in
        Fits window max now x.1 (granted_after now x.0 granted)
  fits_if true r n h = record { same = refresh; few = f.few }
  fits_if false r n h = record {
    same =
        rw
          (
            select-append (in_window window now) fresh (now ∷ []),
            select-append (in_window window now) granted (now ∷ []),
            refresh,
          )
          refl;
    few =
        rw
          (
            select-append (in_window window now) granted (now ∷ []),
            length-append (select (in_window window now) granted)
                (select (in_window window now) (now ∷ [])),
          )
          (room (below_limit max _ h) (ap length f.same) (one_at_most (in_window window now) now));
  }

  answered_fits :
      let r = limit_fresh window max now fresh in
      Fits window max now r.1 (granted_after now r.0 granted)
  unfolding limit_fresh
  answered_fits = fits_if (leb max (length fresh)) _ _ refl

-- The calls that reach the limiter, of one client with one limit and of any others, at times that do
-- not go back; with the time of the client's last call, the buckets, and its allowed calls.
pub data Calls (key : String) (window max : ℕ) : ℕ → Buckets → List ℕ → Type 0 where
  no_calls : Calls key window max 0 (λ _. []) []
  of_another :
      {t : ℕ} {b : Buckets} {g : List ℕ}
      → Calls key window max t b g
      → (other : String) (w m now : ℕ) → (key == other) ≡ false
      → Calls key window max t (rate_limit other w m now b).1 g
  of_client :
      {t : ℕ} {b : Buckets} {g : List ℕ}
      → Calls key window max t b g
      → (now : ℕ) → t ≤ now
      → Calls key window max now
          (rate_limit key window max now b).1
          (granted_after now (rate_limit key window max now b).0 g)

calls_fit :
    {key : String} {window max t : ℕ} {b : Buckets} {g : List ℕ}
    → Calls key window max t b g
    → Fits window max t (b key) g
unfolding rate_limit
calls_fit no_calls = record { same = refl; few = omega arith }
calls_fit {key} {window} {max} (of_another {t} {b} {g} before other w m now h) =
    rw h (calls_fit before)
calls_fit {key} {window} {max} (of_client {t} {b} {g} before now h) =
    rw (eq_refl key) (
      answered_fits window max now (b key) g
        (later window max t now (b key) g h (calls_fit before)))

-- However often a client calls, and other clients with it, no window of time that ends after its last
-- call has more allowed calls of it than the limit, if the clock does not go back.
pub rate_limited :
    {key : String} {window max t : ℕ} {b : Buckets} {g : List ℕ}
    → Calls key window max t b g
    → (now : ℕ) → t ≤ now
    → length (select (in_window window now) g) ≤ max
rate_limited {key} {window} {max} {t} {b} {g} calls now h =
    (later window max t now (b key) g h (calls_fit calls)).few
