-- ===== src/OpenVpn/Client.antt =====
-- start, stop and the connect loop of src/OpenVpnClient.cpp, with what its callback `log` sets. The
-- OpenVPN core and the other threads act on the loop only through what a round tells of them.
use ovpn2ss.Common.{
  ℕ, zero, suc, ◌+◌, ◌*◌, ◌≡◌, min, Bool, true, false, not, ◌&&◌, ◌||◌, Option, none, some, List,
  [], ◌∷◌, ◌++◌, ltb, if◌then◌else◌, is_some,
}

-- How connect ends.
pub data Connect : Type 0 where
  returned threw : Connect

-- What happens in a round of the loop: how connect ends, whether `log` asks for a downgrade or stop is
-- called by then, whether stop is called in the wait or at its end, and after how many sleeps, and
-- whether the evaluation of the next configuration fails.
pub record Round : Type 0 where
  pub connect : Connect
  pub asks_downgrade : Bool
  pub stopped : Bool
  pub stop_in_wait : Option ℕ
  pub eval_fails : Bool

-- The members that the loop uses and its local variables; `inside` is whether the thread is in the
-- loop. The last three fields are no members: the configurations that were evaluated, by whether they
-- enable the non-preferred algorithms, the waits in milliseconds, and how often it was downgraded.
pub record Client : Type 0 where
  pub running : Bool
  pub needs_downgrade : Bool
  pub using_non_preferred : Bool
  pub reconnect_delay_ms : ℕ
  pub inside : Bool
  pub configs : List Bool
  pub waits : List ℕ
  pub downgrades : ℕ

abbrev pub initial_delay_ms : ℕ
initial_delay_ms = 2000

abbrev pub max_reconnect_delay_ms : ℕ
max_reconnect_delay_ms = 30000

-- The constructor.
abbrev pub init : Client
init = record {
  running = false;
  needs_downgrade = false;
  using_non_preferred = false;
  reconnect_delay_ms = initial_delay_ms;
  inside = false;
  configs = [];
  waits = [];
  downgrades = 0;
}

-- The configuration is evaluated; a failure ends the loop.
unfoldable pub evaluate : Bool → Client → Client
evaluate fails c =
    let c1 = record c { configs = c.configs ++ c.using_non_preferred ∷ [] } in
    if fails then record c1 { running = false; inside = false } else c1

-- start, for a file that can be opened, while no earlier thread is in the loop; `scanned` is the
-- answer of scan_ovpn_for_non_aead_cipher.
unfoldable pub start : Bool → Bool → Client → Client
unfolding evaluate
start scanned eval_fails c =
    let c1 = record c {
      running = true;
      needs_downgrade = if scanned then c.needs_downgrade else false;
      using_non_preferred = scanned || c.needs_downgrade;
      reconnect_delay_ms = initial_delay_ms;
      inside = true;
      downgrades = 0;
    } in
    if c.running then c else evaluate eval_fails c1

-- The loop of sleeps of 200 ms on fuel; `stop` is after how many of them stop is called.
unfoldable pub wait_loop : ℕ → ℕ → ℕ → Option ℕ → ℕ
wait_loop zero elapsed delay stop = elapsed
wait_loop (suc fuel) elapsed delay none =
    let rest = wait_loop fuel (elapsed + 200) delay none in
    if ltb elapsed delay then rest else elapsed
wait_loop (suc fuel) elapsed delay (some zero) = elapsed
wait_loop (suc fuel) elapsed delay (some (suc k)) =
    let rest = wait_loop fuel (elapsed + 200) delay (some k) in
    if ltb elapsed delay then rest else elapsed

-- Each sleep takes 200 of the milliseconds, so as many rounds as milliseconds are enough.
unfoldable pub wait : Option ℕ → Client → Client
unfolding wait_loop
wait stop c = record c {
  waits = c.waits ++ wait_loop c.reconnect_delay_ms 0 c.reconnect_delay_ms stop ∷ [];
}

abbrev pub leave : Client → Client
leave c = record c { running = false; inside = false }

-- From the check behind connect to the end of the round.
unfoldable pub reconnect : Round → Client → Client
unfolding wait evaluate
reconnect r c =
    let c1 = wait r.stop_in_wait c in
    let c2 = record c1 {
      reconnect_delay_ms = min (c1.reconnect_delay_ms * 2) max_reconnect_delay_ms;
    } in
    if not c.running
    then leave c
    else if is_some r.stop_in_wait
    then leave c1
    else evaluate r.eval_fails c2

-- What connect leaves when it returns.
unfoldable pub after_connect : Round → Client → Client
unfolding reconnect evaluate
after_connect r c =
    let c1 = record c { reconnect_delay_ms = initial_delay_ms; needs_downgrade = false } in
    if c.needs_downgrade && not c.using_non_preferred && c.running
    then evaluate r.eval_fails
        (record c1 { using_non_preferred = true; downgrades = c.downgrades + 1 })
    else reconnect r c1

-- A round of the loop. `log` and stop act while connect runs.
unfoldable pub round : Round → Client → Client
unfolding after_connect reconnect
round r c =
    let c1 = record c {
      needs_downgrade = c.needs_downgrade || r.asks_downgrade;
      running = not r.stopped;
    } in
    if not c.inside
    then c
    else if not c.running
    then leave c
    else elim r.connect [ returned ↦ after_connect r c1 | threw ↦ reconnect r c1 ]

-- `c` comes from `c0` by rounds.
pub data Rounds (c0 : Client) : Client → Type 0 where
  here : {c : Client} → c ≡ c0 → Rounds c0 c
  next : {c c' : Client} (r : Round) → Rounds c0 c → c' ≡ round r c → Rounds c0 c'
