-- ===== src/OpenVpn/Reconnect.antt =====
-- The waits of the connect loop, and that it downgrades once at most.
use ovpn2ss.Common.{
  ℕ, zero, suc, ◌+◌, ◌<◌, Option, none, some, List, All, ◌≤◌, ◌≡◌, inl, inr, ◌⊎◌, Bool, true, false,
  arith, All-append_one,
}
use ovpn2ss.OpenVpn.Client.{
  initial_delay_ms, Round, Client, evaluate, start, wait_loop, wait, round, Rounds, here, next,
}

-- The next wait is 2 to 30 seconds, a client that was downgraded stays so and was so once, and the
-- thread is in the loop exactly as long as the client runs.
pub record IsSane (c : Client) : Type 0 where
  pub delay_low : 2000 ≤ c.reconnect_delay_ms
  pub delay_high : c.reconnect_delay_ms ≤ 30000
  pub downgraded : (c.downgrades ≡ 0) ⊎ ((c.downgrades ≡ 1) × (c.using_non_preferred ≡ true))
  pub in_loop : c.inside ≡ c.running

wait_loop_lt :
    (fuel elapsed delay : ℕ) (stop : Option ℕ)
    → elapsed < delay + 200
    → wait_loop fuel elapsed delay stop < delay + 200
unfolding wait_loop
wait_loop_lt zero elapsed delay stop h = h
wait_loop_lt (suc fuel) elapsed delay none h =
    ground (arith, wait_loop_lt fuel (elapsed + 200) delay none)
wait_loop_lt (suc fuel) elapsed delay (some zero) h = h
wait_loop_lt (suc fuel) elapsed delay (some (suc k)) h =
    ground (arith, wait_loop_lt fuel (elapsed + 200) delay (some k))

-- With a round for each millisecond the loop ends only when the delay is over.
wait_loop_enough :
    (fuel elapsed delay : ℕ) → delay ≤ elapsed + fuel → delay ≤ wait_loop fuel elapsed delay none
unfolding wait_loop
wait_loop_enough zero elapsed delay h = omega arith
wait_loop_enough (suc fuel) elapsed delay h =
    ground (arith, wait_loop_enough fuel (elapsed + 200) delay)

-- Each is under 30.2 seconds.
abbrev pub AreShort : List ℕ → Type 0
AreShort = All (λ w. w < 30200)

wait-AreShort :
    (stop : Option ℕ) (c : Client)
    → c.reconnect_delay_ms ≤ 30000
    → AreShort c.waits
    → AreShort (wait stop c).waits
unfolding wait
wait-AreShort stop c h a =
    let w = wait_loop_lt c.reconnect_delay_ms 0 c.reconnect_delay_ms stop (omega arith) in
    All-append_one _ c.waits _ a (omega (arith, w, h))

-- Every round leaves the waits as they were, or waits once.
round-waits :
    (r : Round) (c : Client)
    → IsSane c
    → ((round r c).waits ≡ c.waits)
      ⊎ (((round r c).waits ≡ (wait r.stop_in_wait c).waits)
          ⊎ ((round r c).waits
              ≡ (wait r.stop_in_wait (record c { reconnect_delay_ms = initial_delay_ms })).waits))
unfolding round evaluate wait
round-waits r c v = ground (arith, v.in_loop)

round-AreShort : (r : Round) (c : Client) → IsSane c → AreShort c.waits → AreShort (round r c).waits
round-AreShort r c v a = elim (round-waits r c v) [
  | inl e ↦ rw e a
  | inr (inl e) ↦ rw e (wait-AreShort r.stop_in_wait c v.delay_high a)
  | inr (inr e) ↦ rw e (wait-AreShort r.stop_in_wait _ (omega arith) a)
]

round-IsSane : (r : Round) (c : Client) → IsSane c → IsSane (round r c)
unfolding round evaluate wait
round-IsSane r c v = ground (arith, v.delay_low, v.delay_high, v.downgraded, v.in_loop)

start-waits : (s f : Bool) (c : Client) → (start s f c).waits ≡ c.waits
unfolding start evaluate
start-waits s f c = ground arith

start-IsSane : (s f : Bool) (c : Client) → c.running ≡ false → IsSane (start s f c)
unfolding start evaluate
start-IsSane s f c a = ground arith

-- From a client that does not run and whose recorded waits, if any, are under 30.2 seconds, after
-- start and any rounds of the connect loop, whatever happens in them: the next wait is 2 to 30
-- seconds, the client was downgraded once at most and then keeps the non-preferred algorithms, and
-- its thread is in the loop exactly as long as it runs; and every wait that is recorded is under
-- 30.2 seconds.
pub Rounds-IsSane :
    (scanned eval_fails : Bool) (c c' : Client)
    → c.running ≡ false
    → AreShort c.waits
    → Rounds (start scanned eval_fails c) c'
    → IsSane c' × AreShort c'.waits
Rounds-IsSane scanned eval_fails c c' a w (here e) =
    rw e (start-IsSane scanned eval_fails c a, rw (start-waits scanned eval_fails c) w)
Rounds-IsSane scanned eval_fails c c' a w (next {c = before} r run e) =
    let (v, w') = Rounds-IsSane scanned eval_fails c before a w run in
    rw e (round-IsSane r before v, round-AreShort r before v w')
