-- ===== src/TcpRelay/Events.antt =====
-- What can happen to a TcpRelaySession: each event is the completion of a read, of a write or of a
-- resolution, or a callback of lwIP.
use ovpn2ss.Common.{
  ℕ, ◌+◌, ◌*◌, ◌≤◌, ◌≡◌, true, Option, none, some, Bytes, List, [], ◌∷◌, ◌++◌, if◌then◌else◌,
  length,
}
use ovpn2ss.Aead.Crypto.{Crypto}
use ovpn2ss.Lwip.{Lwip, Err}
use ovpn2ss.TcpRelay.State.{Relay, tcp_mss}
use ovpn2ss.TcpRelay.Closing.{is_ok, on_err}
use ovpn2ss.TcpRelay.Upstream.{on_resolved, on_connected, on_sent}
use ovpn2ss.TcpRelay.Reading.{ReadEnd, on_salt, on_read}
use ovpn2ss.TcpRelay.Downstream.{on_write, on_recv}

-- The receive window of third_party/lwipopts.h.
abbrev pub tcp_wnd : ℕ
tcp_wnd = 48 * tcp_mss

-- random_bytes fills the salt of 32 bytes, or throws.
abbrev pub IsDrawn : Option Bytes → Type 0
IsDrawn none = Unit {0}
IsDrawn (some salt) = length salt ≡ 32

module _ (l : Lwip) where
  -- The payload of `received` is none for a null pointer; `draw` is what the generator gives. An
  -- async_write ends with the whole buffer written, or fails.
  pub data Event : Type 0 where
    salted : Option Bytes → Event
    read : ReadEnd → Event
    resolved : Err → Option l.Ip → ℕ → Event
    connected : Err → Event
    sent aborted : Event
    received : Option Bytes → Option Bytes → Err → Event
    written write_failed : Event

  -- The bytes that lwIP delivers by an event: it calls back on the session's pcb only.
  abbrev pub delivered_by : Event → Option ℕ → Bytes
  delivered_by (received draw (some bytes) e) (some p) = if is_ok e then bytes else []
  delivered_by _ pcb = []

  abbrev pub drawn_by : Event → Option Bytes
  drawn_by (received draw payload e) = draw
  drawn_by _ = none

  -- lwIP delivers no more than the window that it announced, TCP_WND less what it was not told of;
  -- and the generator fills the salt, or throws.
  abbrev pub IsAllowed : Event → Relay l → Type 0
  IsAllowed e r =
      (r.deferred_tcp_recved + length (delivered_by e r.pcb) ≤ tcp_wnd) × IsDrawn (drawn_by e)

  -- The completion of the write of the front buffer, if one is in flight.
  unfoldable pub on_written : List Bytes → Relay l → Relay l
  unfolding on_write
  on_written [] r = r
  on_written (front ∷ rest) r = if r.writing_client then on_write l (some (length front)) r else r

  unfoldable pub on_write_failed : Relay l → Relay l
  unfolding on_write
  on_write_failed r = if r.writing_client then on_write l none r else r

module _ (c : Crypto) (l : Lwip) where
  -- A read leaves a session always.
  abbrev pub or_else : Relay l → Option (Relay l) → Relay l
  or_else r none = r
  or_else r (some r') = r'

  abbrev pub on_received : Option Bytes → Option Bytes → Err → Relay l → Option ℕ → Relay l
  on_received draw payload e r none = r
  on_received draw payload e r (some p) = on_recv c l draw p payload e r

  unfoldable pub step : Event l → Relay l → Relay l
  unfolding on_written on_write_failed
  step (salted salt) r = on_salt c l salt r
  step (read end) r = or_else r (on_read c l end r)
  step (resolved e ip port) r = on_resolved l e ip port r
  step (connected e) r = on_connected l e r
  step sent r = on_sent l r
  step aborted r = on_err l true r
  step (received draw payload e) r = on_received draw payload e r r.pcb
  step written r = on_written l r.pending_client r
  step write_failed r = on_write_failed l r

  -- `r` comes from `r0` by events, and `stream` is all that lwIP has delivered on the way.
  pub data Reached (r0 : Relay l) : Relay l → Bytes → Type 0 where
    here : {r : Relay l} {stream : Bytes} → r ≡ r0 → stream ≡ [] → Reached r0 r stream
    more :
        {r r' : Relay l} {stream stream' : Bytes} (e : Event l)
        → Reached r0 r stream
        → IsAllowed l e r
        → r' ≡ step e r
        → stream' ≡ stream ++ delivered_by l e r.pcb
        → Reached r0 r' stream'
