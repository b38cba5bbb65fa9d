-- ===== src/Examples/Instances.antt =====
-- An instance of src/MultiInstanceManager.cpp whose tunnel comes up, and which is stopped then.
use ovpn2ss.Common.{◌≡◌, refl, true, false, [], ◌∷◌, codes}
use ovpn2ss.OpenVpn
use ovpn2ss.OpenVpn.TunBuilder.{tun_builder_establish, tun_calls, tun_builder_new}
use ovpn2ss.Inbound.Listeners.{listens, start}
use ovpn2ss.Manager.Config.{InstanceConfig}
use ovpn2ss.Manager.Instance.{Answers, Instance, new_instance}
use ovpn2ss.Manager.Events.{ran, stops, vpn_event, step, Reached, here, more}
use ovpn2ss.Manager.Jobs.{IsStopped}
use ovpn2ss.Manager.Queue.{last_ready}
use ovpn2ss.Manager.Stopping.{run_all, started_follows, run_all-IsStopped}
use ovpn2ss.Examples.Toy.{toy, toy_stack, toy_net}
use ovpn2ss.Examples.ToyAsio.{toy_asio}
use ovpn2ss.Examples.Sessions.{key}
use ovpn2ss.Examples.Listeners.{config}

abbrev instance_config : InstanceConfig
instance_config = record {
  name = codes "home";
  ovpn_path = codes "home.ovpn";
  shadowsocks = config;
  udp_enabled = true;
  vpn_username = [];
  vpn_password = [];
}

abbrev good : Answers
good = record {
  opening = listens;
  bound = true;
  readable = true;
  scanned = false;
  evaluated = true;
}

abbrev fresh : Instance toy_net toy_stack
fresh = new_instance toy_net toy_stack instance_config key 5 1

-- The OpenVPN core has a tunnel, which it starts; the thread has run two calls.
abbrev told : Instance toy_net toy_stack
told =
    step toy toy_asio toy_net toy_stack (vpn_event (OpenVpn.Events.tun_started 0 [] false) refl) (
      step toy toy_asio toy_net toy_stack (vpn_event OpenVpn.Events.made refl)
        (step toy toy_asio toy_net toy_stack (ran good) fresh))

abbrev serving : Instance toy_net toy_stack
serving = step toy toy_asio toy_net toy_stack (ran good) told

serving-Reached : Reached toy toy_asio toy_net toy_stack fresh serving
serving-Reached =
    more {i = told} (ran good)
      (more (vpn_event (OpenVpn.Events.tun_started 0 [] false) refl)
        (more (vpn_event OpenVpn.Events.made refl) (more (ran good) (here refl) refl) refl) refl)
      refl

abbrev stopping : Instance toy_net toy_stack
stopping = step toy toy_asio toy_net toy_stack stops serving

is_serving : serving.ss.listening ≡ true
unfolding step OpenVpn.Events.step tun_builder_establish tun_calls tun_builder_new start
is_serving = refl

started_follows_example : serving.ss.started ≡ last_ready false serving.vpn.notified
unfolding step OpenVpn.Events.step tun_builder_establish tun_calls tun_builder_new start
started_follows_example =
    started_follows toy toy_asio toy_net toy_stack instance_config key 5 1 serving serving-Reached
      refl refl

run_all-IsStopped_example :
    IsStopped toy_net toy_stack (run_all toy_net toy_stack (good ∷ []) stopping)
    × ((run_all toy_net toy_stack (good ∷ []) stopping).jobs ≡ [])
unfolding step OpenVpn.Events.step tun_builder_establish tun_calls tun_builder_new start
run_all-IsStopped_example =
    run_all-IsStopped toy toy_asio toy_net toy_stack instance_config key 5 1 stopping (good ∷ [])
      (more {i = serving} stops serving-Reached refl) refl refl refl
