-- ===== src/Session/Delay.antt =====
-- How long the reconnection cycle waits.
use libpanaudia_core.Prelude.{
  Bool-cases, arith, if◌then◌else◌, inl, inr, leb, leb→le, min, refl, suc, u32, zero, ℕ, ◌*◌, ◌<◌,
  ◌^◌, ◌∙◌, ◌≡◌, ◌≤◌,
}
use libpanaudia_core.Session.State.{Session}
use libpanaudia_core.Session.Link.{double_delay, calculate_reconnect_delay_ms}
use Prim.Native.Nat.pow

pow_suc : (n : ℕ) → 2 ^ suc n ≡ 2 * 2 ^ n
pow_suc n = ground (arith, pow.suc 2 n)

doubled_over : (n delay limit : ℕ) → limit ≤ delay * 2 → limit ≤ delay * 2 * 2 ^ n
doubled_over zero delay limit h = omega arith
doubled_over (suc n) delay limit h = rw (pow_suc n) (omega (arith, doubled_over n delay limit h))

double_delay-zero : (delay limit : ℕ) → double_delay zero delay limit ≡ delay
unfolding double_delay
double_delay-zero delay limit = refl

no_wrap : (delay : ℕ) → delay < 2 ^ 31 → u32 (delay * 2) ≡ delay * 2
no_wrap delay h = omega arith

-- Below 2 ^ 31 no doubling wraps.
double_delay-next :
    (n delay limit : ℕ)
    → delay < 2 ^ 31
    → double_delay (suc n) delay limit
      ≡ (if leb limit (delay * 2) then limit else double_delay n (delay * 2) limit)
unfolding double_delay
double_delay-next n delay limit h = rw (no_wrap delay h) refl

double_delay-min :
    (n delay limit : ℕ)
    → delay ≤ limit
    → limit < 2 ^ 31
    → double_delay n delay limit ≡ min (delay * 2 ^ n) limit
double_delay-min zero delay limit h k = double_delay-zero delay limit ∙ omega arith
double_delay-min (suc n) delay limit h k =
    rw (double_delay-next n delay limit (omega arith), pow_suc n)
      (elim (Bool-cases (leb limit (delay * 2))) [
        | inl over ↦ rw over (omega (arith, doubled_over n delay limit (leb→le limit _ over)))
        | inr under ↦
            rw under (double_delay-min n (delay * 2) limit (ground arith) k ∙ ground arith)
      ])

module _ {A H : Type 0} where
  -- The delay before the next attempt is the base delay doubled once for each attempt so far, and
  -- at most the cap, if the base is within the cap and the cap is below 2 ^ 31 milliseconds.
  pub calculate_reconnect_delay_ms-min :
      (s : Session A H)
      → s.config.reconnect_base_delay_ms ≤ s.config.reconnect_max_delay_ms
      → s.config.reconnect_max_delay_ms < 2 ^ 31
      → calculate_reconnect_delay_ms s
        ≡ min
            (s.config.reconnect_base_delay_ms * 2 ^ s.reconnect_attempt)
            s.config.reconnect_max_delay_ms
  unfolding calculate_reconnect_delay_ms
  calculate_reconnect_delay_ms-min s h k = double_delay-min s.reconnect_attempt _ _ h k
