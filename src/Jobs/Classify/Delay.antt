-- ===== src/Jobs/Classify/Delay.antt =====
-- The exponential backoff of jobs/classify.js.
use native.Mathlib.Nat.{pow-suc}
use autonomous_dev_platform.Base.{ℕ, suc, ◌-◌, ◌*◌, ◌^◌, ◌≤◌, min, ◌≡◌, arith}
use autonomous_dev_platform.Jobs.Classify.{retry_delay_ms}

doubled : (n base max : ℕ) → min max (base * 2 ^ suc n) ≡ min max (2 * min max (base * 2 ^ n))
doubled n base max = rw (pow-suc 2 n) (omega arith)

-- The first attempt waits the base delay, each further one twice as long as the one before, and no
-- delay is longer than the maximum.
retry_delay_doubles :
    (n base max : ℕ)
    → (retry_delay_ms 1 base max ≡ min max base)
      × (retry_delay_ms (suc (suc n)) base max ≡ min max (2 * retry_delay_ms (suc n) base max))
      × (retry_delay_ms n base max ≤ max)
unfolding retry_delay_ms
retry_delay_doubles n base max =
    let now : suc (suc n) - 1 ≡ suc n = omega arith in
    let before : suc n - 1 ≡ n = omega arith in
    (omega arith, rw (now, before) (doubled n base max), omega arith)
