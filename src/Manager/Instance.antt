-- ===== src/Manager/Instance.antt =====
-- The instances that MultiInstanceManager of src/MultiInstanceManager.cpp starts and stops, each with
-- its thread and the calls that are posted to it.
use ovpn2ss.Common.{
  Bool, true, false, not, none, Bytes, List, [], ◌∷◌, ◌++◌, length, drop, map, if◌then◌else◌,
}
use ovpn2ss.Common.Outcome.{Result, ok, err, cannot_open_config, eval_failed}
use ovpn2ss.Runtime
use ovpn2ss.Runtime.Net.{Net}
use ovpn2ss.Runtime.State.{no_config}
use ovpn2ss.UdpRelay.Stack.{Stack}
use ovpn2ss.OpenVpn
use ovpn2ss.OpenVpn.Tunnel.{Tunnel, Notice, ready, down, set_ready_handler, set_disconnect_handler}
use ovpn2ss.Inbound
use ovpn2ss.Inbound.Listeners.{Opening, Inbound}
use ovpn2ss.Manager.Config.{InstanceConfig, ManagerConfig}

-- The calls that are posted to the io_context of an instance: that of start_instance, those of the
-- two handlers, and that of stop.
pub data Job : Type 0 where
  start_job ready_job down_job stop_job : Job

-- What the calls of the system answer while a job runs: how the acceptor opens, whether the UDP
-- socket is bound, whether the OpenVPN file can be opened, what scan_ovpn_for_non_aead_cipher answers
-- for it, and whether its configuration is accepted.
pub record Answers : Type 0 where
  pub opening : Opening
  pub bound : Bool
  pub readable : Bool
  pub scanned : Bool
  pub evaluated : Bool

abbrev pub job_of : Notice → Job
job_of ready = ready_job
job_of down = down_job

module _ (n : Net) (u : Stack) where
  -- An InstanceRuntime; its LwipRuntime is in `vpn`. `running` is running_ of the manager, which all
  -- instances share. The last two fields are no members: the calls that were posted and have not
  -- run, and whether the thread is in io->run().
  pub record Instance : Type 0 where
    pub vpn : Tunnel n
    pub ss : Inbound u
    pub running : Bool
    pub jobs : List Job
    pub alive : Bool

  -- What start makes for a configuration, `master_key` being that of its password, up to the start
  -- of the thread.
  abbrev pub new_instance : InstanceConfig → Bytes → n.State → u.State → Instance
  new_instance config master_key lwip udp_lwip = record {
    vpn = record {
      builder = record { lwip = Runtime.State.init n lwip; pending = no_config };
      running = false;
      needs_downgrade = false;
      ready_handler = true;
      disconnect_handler = true;
      memory_tun = none;
      tuns = [];
      notified = [];
      injected = [];
      core_stops = 0;
    };
    ss = Inbound.Listeners.init u config.shadowsocks master_key udp_lwip;
    running = true;
    jobs = start_job ∷ [];
    alive = true;
  }

  -- OpenVpnClient::start, up to the start of its thread.
  unfoldable pub vpn_start : Answers → Tunnel n → Tunnel n × Result (Unit {0})
  vpn_start a t =
      let t1 = record t {
        running = true;
        needs_downgrade = if a.scanned then t.needs_downgrade else false;
      } in
      if t.running
      then (t, ok tt)
      else if not a.readable
      then (record t { running = false }, err cannot_open_config)
      else if a.evaluated
      then (t1, ok tt)
      else (record t1 { running = false }, err eval_failed)

  abbrev on_runtime : (Runtime.State.Runtime n → Runtime.State.Runtime n) → Tunnel n → Tunnel n
  on_runtime f t = record t { builder = record t.builder { lwip = f t.builder.lwip } }

  -- The call of start_instance.
  unfoldable pub run_start : Answers → Instance → Instance
  unfolding vpn_start
  run_start a i =
      let (vpn, answer) = vpn_start a (on_runtime (Runtime.Packets.start n) i.vpn) in
      elim answer [
        | ok done ↦ record i { vpn = vpn }
        | err e ↦ record i { vpn = on_runtime (Runtime.Packets.stop n) vpn }
      ]

  -- The call of the ready handler: what ss->start throws ends the thread.
  unfoldable pub run_ready : Opening → Bool → Instance → Instance
  run_ready opening bound i =
      let (ss, answer) = Inbound.Listeners.start u opening bound i.ss in
      if not i.running then i else elim answer [
        | ok done ↦ record i { ss = ss }
        | err e ↦ record i { ss = ss; alive = false }
      ]

  unfoldable pub run_down : Instance → Instance
  run_down i = if not i.running then i else record i { ss = Inbound.Listeners.stop u i.ss }

  -- The call of stop.
  unfoldable pub run_stop : Instance → Instance
  run_stop i =
      let vpn = set_disconnect_handler n false (set_ready_handler n false i.vpn) in
      record i {
        ss = Inbound.Listeners.stop u i.ss;
        vpn = on_runtime (Runtime.Packets.stop n) (OpenVpn.Tunnel.stop n vpn);
      }

  unfoldable pub run_job : Answers → Job → Instance → Instance
  unfolding run_start run_ready run_down run_stop
  run_job a start_job i = run_start a i
  run_job a ready_job i = run_ready a.opening a.bound i
  run_job a down_job i = run_down i
  run_job a stop_job i = run_stop i

  -- The thread takes the next call.
  unfoldable pub run_next : Answers → Instance → Instance
  unfolding run_job
  run_next a i =
      if i.alive
      then elim i.jobs [ [] ↦ i | job ∷ rest ↦ run_job a job (record i { jobs = rest }) ]
      else i

  -- The part of stop for an instance, up to the wait.
  unfoldable pub post_stop : Instance → Instance
  post_stop i =
      if i.running then record i { running = false; jobs = i.jobs ++ stop_job ∷ [] } else i

  -- Something happens to the OpenVPN client; each handler that it calls posts its call.
  unfoldable pub on_vpn : OpenVpn.Events.Event n → Instance → Instance
  on_vpn e i =
      let vpn = OpenVpn.Events.step n e i.vpn in
      record i {
        vpn = vpn;
        jobs = i.jobs ++ map job_of (drop (length i.vpn.notified) vpn.notified);
      }

  -- The members of MultiInstanceManager.
  pub record Manager : Type 0 where
    pub config : ManagerConfig
    pub instances : List Instance
    pub running : Bool

  -- start; `make` is new_instance with the key of each password and the states of lwIP.
  unfoldable pub start : (InstanceConfig → Instance) → Manager → Manager
  start make m =
      if m.running
      then m
      else record m { running = true; instances = m.instances ++ map make m.config.instances }

  -- stop, up to the waits, and what it does behind them.
  unfoldable pub stop : Manager → Manager
  unfolding post_stop
  stop m =
      if m.running then record m { running = false; instances = map post_stop m.instances } else m

  abbrev pub clear : Manager → Manager
  clear m = record m { instances = [] }
