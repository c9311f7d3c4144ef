-- ===== src/Connection/Backoff.antt =====
-- `ReconnectBackoff` and `HubHeartbeat`. Delays are whole seconds; the heartbeat's clock is read in
-- milliseconds and never goes back.
use pitlane_agent.Common.{
  ℕ, zero, suc, ◌+◌, ◌-◌, ◌*◌, ◌^◌, ◌≤◌, ◌<◌, min, ◌≡◌, refl, Bool, true, false, arith, leb,
  if◌then◌else◌, ◌↔◌, ap, ◌∙◌,
}
use native.Mathlib.Nat.{pow-suc}

pub record ReconnectBackoff : Type 0 where
  pub initial_seconds : ℕ
  pub maximum_seconds : ℕ
  pub next_seconds : ℕ

unfoldable pub init : ℕ → ℕ → ReconnectBackoff
init initial maximum = record {
  initial_seconds = initial;
  maximum_seconds = maximum;
  next_seconds = initial;
}

unfoldable pub next_failure_delay : ReconnectBackoff → ℕ × ReconnectBackoff
next_failure_delay b =
    (b.next_seconds, record b { next_seconds = min (b.next_seconds * 2) b.maximum_seconds })

unfoldable pub reset_after_authentication : ReconnectBackoff → ReconnectBackoff
reset_after_authentication b = record b { next_seconds = b.initial_seconds }

-- The state after n failures in a row.
unfoldable pub after_failures : ℕ → ReconnectBackoff → ReconnectBackoff
unfolding next_failure_delay
after_failures zero b = b
after_failures (suc n) b = (next_failure_delay (after_failures n b)).1

next-after_failures :
    (n initial maximum : ℕ) (b : ReconnectBackoff)
    → b.initial_seconds ≡ initial
    → b.maximum_seconds ≡ maximum
    → initial ≤ maximum
    → ((after_failures n (reset_after_authentication b)).next_seconds
        ≡ min (initial * 2 ^ n) maximum)
      × ((after_failures n (reset_after_authentication b)).maximum_seconds ≡ maximum)
unfolding after_failures reset_after_authentication
next-after_failures zero initial maximum b p q h = (ground (arith, p, q, h), q)
next-after_failures (suc n) initial maximum b p q h =
    let (x, y) = next-after_failures n initial maximum b p q h in
    let doubled : initial * 2 ^ suc n ≡ initial * 2 ^ n * 2 =
      ap (λ (t : ℕ). initial * t) (pow-suc 2 n) ∙ omega arith in
    (omega (arith, x, y, doubled), y)

-- After an authentication the delay before the n-th reconnection in a row, counted from 0, is the
-- initial delay doubled n times, and the maximum where that passes it; the initial delay is not
-- above the maximum.
pub failure_delay_doubles :
    (n : ℕ) (b : ReconnectBackoff)
    → b.initial_seconds ≤ b.maximum_seconds
    → (next_failure_delay (after_failures n (reset_after_authentication b))).0
      ≡ min (b.initial_seconds * 2 ^ n) b.maximum_seconds
unfolding next_failure_delay
failure_delay_doubles n b h =
    (next-after_failures n b.initial_seconds b.maximum_seconds b refl refl h).0

pub record HubHeartbeat : Type 0 where
  pub last_received_at : ℕ

-- HUB_SILENCE_TIMEOUT_SECONDS, in milliseconds.
abbrev pub silence_timeout : ℕ
silence_timeout = 35000

unfoldable pub mark_received : ℕ → HubHeartbeat → HubHeartbeat
mark_received now h = record { last_received_at = now }

-- `require_alive` returns; it raises where this is `false`.
unfoldable pub is_alive : ℕ → HubHeartbeat → Bool
is_alive now h = if leb silence_timeout (now - h.last_received_at) then false else true

-- The connection is given up exactly when the hub has been silent for 35 seconds since the last
-- message: the moments between are not, and a message starts the count again.
pub is_alive_iff :
    (received now : ℕ) (h : HubHeartbeat)
    → received ≤ now
    → (is_alive now (mark_received received h) ≡ true) ↔ (now < received + 35000)
unfolding is_alive mark_received
is_alive_iff received now h le = ((λ t. ground (arith, t)), (λ lt. ground (arith, lt)))
