-- ===== src/TcpRelay/Sound.antt =====
-- The invariant of an open TcpRelaySession: what it sends the client carries exactly what lwIP has
-- delivered, the receive window is accounted for, and the queue is bounded.
use ovpn2ss.Common.{
  ℕ, ◌+◌, ◌*◌, ◌%◌, ◌^◌, ◌≤◌, ◌≡◌, refl, sym, ap, ◌∙◌, ◌⊎◌, inl, inr, Bool, true, false, ◌||◌,
  Option, some, Bytes, List, [], ◌∷◌, ◌++◌, length, is_empty, arith,
}
use ovpn2ss.Common.Outcome.{Result, ok}
use ovpn2ss.Aead.Crypto.{Crypto}
use ovpn2ss.Aead.Session.{Session, make_session, client_salt, set_client_salt}
use ovpn2ss.Aead.TcpChunk.{Synced, set_client_salt-client_salt}
use ovpn2ss.Lwip.{Lwip}
use ovpn2ss.TcpRelay.State.{Relay, client_queue_high_water}
use ovpn2ss.TcpRelay.Downstream.{push_client}
use ovpn2ss.TcpRelay.Order.{
  total, total-append, outgoing, IsQueued, push_client-outgoing, push_client-IsQueued,
}
use ovpn2ss.TcpRelay.Events.{tcp_wnd}
use ovpn2ss.TcpRelay.Keeps.{Keeps}
use ovpn2ss.TcpRelay.Opening.{Opens}

-- The bytes of the salt, once it is sent.
abbrev pub salt_room : Bool → ℕ
salt_room true = 32
salt_room false = 0

pub salt_room_le : (b : Bool) → salt_room b ≤ 32
salt_room_le true = omega arith
salt_room_le false = omega arith

-- A write is in flight as long as there is anything to write.
abbrev pub IsActive : (l : Lwip) → Relay l → Type 0
IsActive l r = (r.writing_client || is_empty r.pending_client) ≡ true

module _ (c : Crypto) (l : Lwip) (key : Bytes) where
  -- The first buffer is a salt that a client with the same key takes, and all others are chunks that
  -- it then opens to `stream`; it ends in step with the session.
  pub record Sent (r : Relay l) (stream : Bytes) : Type 0 where
    pub salt : Bytes
    pub chunks : List Bytes
    pub client : Session
    pub last : Session
    pub salted : r.sent_response_salt ≡ true
    pub out_is : outgoing l r ≡ salt ∷ chunks
    pub takes : set_client_salt c salt (make_session key) ≡ (client, ok tt)
    pub opens : Opens c chunks client stream last
    pub synced : Synced r.crypto last

  abbrev pub Carries : Relay l → Bytes → Type 0
  Carries r stream =
      ((r.sent_response_salt ≡ false) × (outgoing l r ≡ []) × (stream ≡ [])) ⊎ Sent r stream

  -- A byte that is held back takes 35 bytes of the queue at most, since a chunk adds 34 to its payload.
  pub record IsSound (r : Relay l) (stream : Bytes) : Type 0 where
    pub queued : IsQueued l r
    pub active : IsActive l r
    pub carries : Carries r stream
    pub master : r.crypto.master_key ≡ key
    pub window : r.recved + r.deferred_tcp_recved ≡ length stream
    pub held : r.deferred_tcp_recved ≤ tcp_wnd
    pub bounded :
        total r.pending_client
        ≤ client_queue_high_water + salt_room r.sent_response_salt + 35 * r.deferred_tcp_recved

  Keeps-Carries :
      (r r' : Relay l) (stream : Bytes) → Keeps l r r' → Carries r stream → Carries r' stream
  Keeps-Carries r r' stream k (inl (s, o, e)) =
      inl (k.salted ∙ s, rw (k.writes, k.writing, k.pending) o, e)
  Keeps-Carries r r' stream k (inr v) = inr (record {
    salt = v.salt;
    chunks = v.chunks;
    client = v.client;
    last = v.last;
    salted = k.salted ∙ v.salted;
    out_is = rw (k.writes, k.writing, k.pending) v.out_is;
    takes = v.takes;
    opens = v.opens;
    synced = record {
      ready = v.synced.ready;
      same_key = v.synced.same_key ∙ sym k.sending.same_key;
      same_nonce = v.synced.same_nonce ∙ sym k.sending.same_nonce;
    };
  })

  pub Keeps-IsSound :
      (r r' : Relay l) (stream : Bytes) → Keeps l r r' → IsSound r stream → IsSound r' stream
  Keeps-IsSound r r' stream k v = record {
    queued = record {
      counted = k.count ∙ v.queued.counted ∙ ap (λ q. total q % 2 ^ 64) (sym k.pending);
      busy = rw (k.writing, k.pending) v.queued.busy;
    };
    active = rw (k.writing, k.pending) v.active;
    carries = Keeps-Carries r r' stream k v.carries;
    master = k.sending.same_master ∙ v.master;
    window = rw (k.recved, k.deferred) v.window;
    held = rw k.deferred v.held;
    bounded = rw (k.pending, k.salted, k.deferred) v.bounded;
  }

  -- The salt is sent, and `r'` came from `r` with `room` bytes more in the queue.
  pub record Grown (r r' : Relay l) (stream : Bytes) (room : ℕ) : Type 0 where
    pub queued : IsQueued l r'
    pub sent : Sent r' stream
    pub master : r'.crypto.master_key ≡ key
    pub recved : r'.recved ≡ r.recved
    pub deferred : r'.deferred_tcp_recved ≡ r.deferred_tcp_recved
    pub size : total r'.pending_client ≡ total r.pending_client + room

  client_salt-master :
      (draw : Option Bytes) (s : Session) → (client_salt c draw s).0.master_key ≡ s.master_key
  unfolding client_salt
  client_salt-master draw s = ground arith

  abbrev pub salt_pushed : Bytes → Session → Relay l → Relay l
  salt_pushed salt s r = record (push_client l salt (record r { crypto = s })) {
    sent_response_salt = true;
  }

  pub push_salt-Grown :
      (salt sent stream : Bytes) (s : Session) (r : Relay l)
      → length salt ≡ 32
      → client_salt c (some salt) r.crypto ≡ (s, ok sent)
      → IsSound r stream
      → outgoing l r ≡ []
      → stream ≡ []
      → Grown r (salt_pushed sent s r) stream 32
  push_salt-Grown salt sent stream s r h e v o none_yet =
      let (same, (client, takes, synced)) =
        set_client_salt-client_salt c salt sent r.crypto s (make_session key) h (sym v.master) e in
      let q : IsQueued l (record r { crypto = s }) = record {
        counted = v.queued.counted;
        busy = v.queued.busy;
      } in
      let pushed = push_client-IsQueued l sent (record r { crypto = s }) q in
      record {
        queued = record { counted = pushed.counted; busy = pushed.busy };
        sent = record {
          salt = sent;
          chunks = [];
          client = client;
          last = client;
          salted = refl;
          out_is =
              push_client-outgoing l sent (record r { crypto = s }) q ∙ ap (λ q. q ++ sent ∷ []) o;
          takes = takes;
          opens = (none_yet, refl);
          synced = synced;
        };
        master =
            ap (λ (x : Session × Result Bytes). x.0.master_key) (sym e)
            ∙ client_salt-master (some salt) r.crypto
            ∙ v.master;
        recved = refl;
        deferred = refl;
        size = omega (arith, total-append r.pending_client (sent ∷ []), ap length same, h);
      }
