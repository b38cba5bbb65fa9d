-- ===== src/Examples/Reconnects.antt =====
-- A start of src/OpenVpnClient.cpp, a connect after which it is downgraded, and one that throws.
use ovpn2ss.Common.{◌≡◌, refl, true, false, none, [], ◌∷◌}
use ovpn2ss.OpenVpn.Client.{returned, threw, Round, Client, init, start, round, here, next}
use ovpn2ss.OpenVpn.Reconnect.{IsSane, AreShort, Rounds-IsSane}

abbrev asking : Round
asking = record {
  connect = returned;
  asks_downgrade = true;
  stopped = false;
  stop_in_wait = none;
  eval_fails = false;
}

abbrev failing : Round
failing = record asking { connect = threw; asks_downgrade = false }

abbrev ended : Client
ended = round failing (round failing (round asking (start false false init)))

waits_double : ended.waits ≡ 2000 ∷ 4000 ∷ []
unfolding round start
waits_double = refl

Rounds-IsSane_example : IsSane ended × AreShort ended.waits
Rounds-IsSane_example =
    Rounds-IsSane false false init ended refl tt
      (next failing (next failing (next asking (here refl) refl) refl) refl)
