-- ===== src/Client/Connection/Delays.antt =====
-- client/src/LiveRelayClient.ts: the delays before the attempts at reconnecting.
use live_r.Base.{ℕ, ◌+◌, ◌-◌, ◌*◌, ◌^◌, ◌≤◌, ◌≡◌, min, arith, zero, suc, ap, ◌∙◌}
use native.Mathlib.Nat.{pow-suc}
use live_r.Client.{LiveRelayConfig}
use live_r.Client.Connection.{capped_delay}

pub uncapped_double : (base n : ℕ) → base * 2 ^ suc n ≡ 2 * (base * 2 ^ n)
uncapped_double base n = ap (λ p. base * p) (pow-suc 2 n) ∙ omega arith

base_least : (base n : ℕ) → base ≤ base * 2 ^ n
base_least base zero = omega arith
base_least base (suc n) = omega (arith, uncapped_double base n, base_least base n)

-- The delay before an attempt to reconnect is at least the configured one, where that is not above
-- 30000, and never above 30000; from one attempt to the next it does not fall, and at most doubles.
pub delay_bounds :
    (config : LiveRelayConfig) (n : ℕ)
    → let delay = capped_delay config in
      (delay (n + 1) ≤ 30000)
      × (min config.reconnect_delay 30000 ≤ delay (n + 1))
      × (delay (n + 1) ≤ delay (n + 2))
      × (delay (n + 2) ≤ 2 * delay (n + 1))
unfolding capped_delay
delay_bounds config n =
    let base = config.reconnect_delay in
    let first : n + 1 - 1 ≡ n = omega arith in
    let second : n + 2 - 1 ≡ suc n = omega arith in
    let double = uncapped_double base n in
    let least = base_least base n in
    rw (first, second, double) (omega arith, omega (arith, least), omega arith, omega arith)
