-- ===== src/TcpRelay/State.antt =====
-- The members of TcpRelaySession and what the session has asked of its client socket so far.
use ovpn2ss.Common.{
  ℕ, ◌*◌, ◌/◌, ◌+◌, ◌-◌, ◌%◌, ◌^◌, Bool, true, false, Option, none, Bytes, [], List,
}
use ovpn2ss.Aead.Session.{Session, make_session}
use ovpn2ss.Lwip.{Lwip}

abbrev pub client_queue_high_water : ℕ
client_queue_high_water = 2 ^ 20

abbrev pub client_queue_low_water : ℕ
client_queue_low_water = 256 * 2 ^ 10

-- The constants of third_party/lwipopts.h.
abbrev pub tcp_mss : ℕ
tcp_mss = 1360

abbrev pub tcp_snd_queuelen : ℕ
tcp_snd_queuelen = 8 * (32 * tcp_mss) / tcp_mss

abbrev pub lwip_snd_low_water : ℕ
lwip_snd_low_water = 8 * tcp_mss

abbrev pub lwip_snd_queue_high_water : ℕ
lwip_snd_queue_high_water = tcp_snd_queuelen * 3 / 4

-- std::size_t arithmetic.
abbrev pub add_size : ℕ → ℕ → ℕ
add_size a b = (a + b) % 2 ^ 64

abbrev pub sub_size : ℕ → ℕ → ℕ
sub_size a b = (a + 2 ^ 64 - b % 2 ^ 64) % 2 ^ 64

module _ (l : Lwip) where
  -- The last six fields are no members: the state of lwIP, whether the client socket is open and
  -- whether its sending side is shut, the reads in flight, all buffers given to async_write in
  -- order, and the sum of the tcp_recved calls.
  pub record Relay : Type 0 where
    pub crypto : Session
    pub active_self : Bool
    pub pcb : Option ℕ
    pub encrypted_in : Bytes
    pub pending_lwip : List Bytes
    pub pending_client : List Bytes
    pub client_queue_bytes : ℕ
    pub deferred_tcp_recved : ℕ
    pub got_target : Bool
    pub sent_response_salt : Bool
    pub client_read_paused : Bool
    pub writing_client : Bool
    pub client_eof : Bool
    pub remote_eof : Bool
    pub closing : Bool
    pub lwip : l.State
    pub socket_open : Bool
    pub send_shut : Bool
    pub reads : ℕ
    pub writes : List Bytes
    pub recved : ℕ

  -- The constructor.
  abbrev pub init : Bytes → l.State → Relay
  init master_key lwip = record {
    crypto = make_session master_key;
    active_self = false;
    pcb = none;
    encrypted_in = [];
    pending_lwip = [];
    pending_client = [];
    client_queue_bytes = 0;
    deferred_tcp_recved = 0;
    got_target = false;
    sent_response_salt = false;
    client_read_paused = false;
    writing_client = false;
    client_eof = false;
    remote_eof = false;
    closing = false;
    lwip = lwip;
    socket_open = true;
    send_shut = false;
    reads = 0;
    writes = [];
    recved = 0;
  }
