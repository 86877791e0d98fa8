-- ===== src/Auth/Examples.antt =====
-- A client that may call twice in a window of ten, and calls three times.
use autonomous_dev_platform.Base.{[], ◌∷◌, ◌≤◌, ◌≡◌, refl, arith, length, select, none, some}
use autonomous_dev_platform.Auth.{in_window, rate_limit, client_key}
use autonomous_dev_platform.Auth.Limited.{no_calls, of_another, of_client, rate_limited}

rate_limited_example : length (select (in_window 10 8) (1 ∷ (3 ∷ []))) ≤ 2
unfolding rate_limit
rate_limited_example =
    rate_limited {key = "login:a"} {window = 10} {max = 2}
      (of_client
        (of_client (of_another (of_client no_calls 1 (omega arith)) "login:b" 5 1 2 refl) 3
          (omega arith))
        7 (omega arith))
      8 (omega arith)

client_key_test : client_key (some "10.0.0.1 , 10.0.0.2") none "login" ≡ "login:10.0.0.1"
unfolding client_key
client_key_test = refl
