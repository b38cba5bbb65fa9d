-- ===== src/Examples/Listeners.antt =====
-- A ShadowsocksInbound of src/ShadowsocksInbound.cpp that is started and has had a connection.
use ovpn2ss.Common.{ℕ, ◌+◌, count, ◌≡◌, ◌≢◌, refl, inl, Bool, true, false, some, none, codes}
use ovpn2ss.Common.Outcome.{ok, err, system_error}
use ovpn2ss.Manager.Config.{ShadowsocksConfig, only_method}
use ovpn2ss.UdpRelay
use ovpn2ss.Inbound.Listeners.{Opening, listens, refused, Inbound, init, start, stop}
use ovpn2ss.Inbound.Events.{started, accepted, udp_event, run_accept, step, Reached, here, more}
use ovpn2ss.Inbound.Serving.{IsServing, Reached-IsServing}
use ovpn2ss.Inbound.Restart.{connections, connections_served, failed_start_sticks, start-stop}
use ovpn2ss.Examples.Toy.{toy, toy_stack}
use ovpn2ss.Examples.ToyAsio.{toy_asio}
use ovpn2ss.Examples.Sessions.{key}
use ovpn2ss.Examples.Datagrams.{client, datagram}

abbrev pub config : ShadowsocksConfig
config = record {
  listen_host = codes "127.0.0.1";
  tcp_port = 8388;
  udp_port = 8388;
  method = only_method;
  password = codes "secret";
}

abbrev unstarted : Inbound toy_stack
unstarted = init toy_stack config key 1

abbrev listening : Inbound toy_stack
listening =
    step toy toy_asio toy_stack (udp_event (UdpRelay.Events.received (some (datagram, client)))) (
      step toy toy_asio toy_stack (accepted false)
        (step toy toy_asio toy_stack (started listens true) unstarted))

listening-Reached : Reached toy toy_asio toy_stack unstarted listening
listening-Reached =
    more (udp_event (UdpRelay.Events.received (some (datagram, client))))
      (more (accepted false) (more (started listens true) (here refl) refl) refl) refl

serves_one : listening.sessions ≡ 1
unfolding step run_accept start
serves_one = refl

is_listening : listening.listening ≡ true
unfolding step
is_listening = refl

Reached-IsServing_example : IsServing toy_stack listening
Reached-IsServing_example =
    Reached-IsServing toy toy_asio toy_stack config key 1 listening listening-Reached

connections_served_example :
    (connections toy_stack 3 listening ≡ record listening { sessions = listening.sessions + 3 })
    × (run_accept toy_stack true listening ≡ listening)
connections_served_example =
    connections_served toy toy_asio toy_stack config key 1 listening 3 listening-Reached
      is_listening

failed_start_sticks_example :
    let (r1, answer) = start toy_stack refused true unstarted in
    (answer ≡ err system_error)
    × (r1.listening ≡ false)
    × ((later : Opening) (bound : Bool) → start toy_stack later bound r1 ≡ (r1, ok tt))
failed_start_sticks_example =
    failed_start_sticks toy toy_asio toy_stack config key 1 unstarted refused true (here refl) refl
      (inl refl)

start-stop_example :
    let (r1, answer) = start toy_stack listens true (stop toy_stack listening) in
    (answer ≡ ok tt)
    × (r1.listening ≡ true)
    × (r1.accepts ≡ 1)
    × (listening.config.udp_port ≡ 0 → r1.udp ≡ none)
    × (listening.config.udp_port ≢ 0
        → r1.udp
          ≡ some (
              UdpRelay.Sending.start toy_stack (
                UdpRelay.State.init toy_stack listening.master_key
                  (stop toy_stack listening).lwip)))
    × ((q : UdpRelay.State.Relay toy_stack)
        → listening.udp ≡ some q
        → ((stop toy_stack listening).lwip ≡ (UdpRelay.Mappings.stop toy_stack q).lwip)
          × ((p : ℕ)
              → count p (UdpRelay.Mappings.stop toy_stack q).made
                ≡ count p (UdpRelay.Mappings.stop toy_stack q).removed))
start-stop_example = start-stop toy toy_asio toy_stack config key 1 listening listening-Reached
