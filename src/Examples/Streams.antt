-- ===== src/Examples/Streams.antt =====
-- A session of src/TcpRelaySession.cpp that connects, is given two payloads, and has one write done.
use ovpn2ss.Common.{
  Bytes, none, is_some, codes, ◌∷◌, replicate, ◌+◌, ◌*◌, ◌≤◌, ◌≡◌, refl, true, false, some, [],
  ◌++◌, length, arith,
}
use ovpn2ss.Common.Outcome.{ok}
use ovpn2ss.Lwip.{err_ok}
use ovpn2ss.TcpRelay.State.{Relay, init, client_queue_high_water}
use ovpn2ss.TcpRelay.Order.{total, outgoing}
use ovpn2ss.TcpRelay.Events.{tcp_wnd, Event, resolved, received, written, step, Reached, here, more}
use ovpn2ss.TcpRelay.Upstream.{on_resolved}
use ovpn2ss.TcpRelay.Downstream.{on_recv}
use ovpn2ss.Aead.Session.{Session, client_salt, derive_subkey, encrypt_tcp_chunk, crypt}
use ovpn2ss.Aead.Nonce.{increment_nonce}
use ovpn2ss.TcpRelay.Runs.{Carried, Reached-Carried, Reached-window, Reached-bounded}
use ovpn2ss.TcpRelay.Draining.{complete_writes, complete_writes-Carried}
use ovpn2ss.Address.{parse_ss_address, encode_ss_address}
use ovpn2ss.Aead.TcpChunk.{followed}
use ovpn2ss.TcpRelay.Upstream.{then_queue, connect_target}
use ovpn2ss.TcpRelay.Reading.{read_loop}
use ovpn2ss.TcpRelay.Reopening.{closed_session_connects}
use ovpn2ss.TcpRelay.Closing.{close}
use ovpn2ss.TcpRelay.Connects.{read_whole, read_loop-encode_ss_address}
use ovpn2ss.Examples.ToyAsio.{toy_asio, toy_asio-IsAsio}
use ovpn2ss.Examples.Addresses.{v4_target, v4_target-IsTarget}
use ovpn2ss.Examples.Toy.{toy, toy-IsCrypto, toy_lwip}
use ovpn2ss.Examples.Sessions.{key, salt, hello, sender, sender', receiver, sender-Synced}

abbrev fresh : Relay toy_lwip
fresh = init toy_lwip key 20000

abbrev connecting : Event toy_lwip
connecting = resolved err_ok (some hello) 80

abbrev answering : Event toy_lwip
answering = received (some salt) (some hello) err_ok

abbrev connected : Relay toy_lwip
connected = step toy toy_lwip connecting fresh

abbrev answered : Relay toy_lwip
answered = step toy toy_lwip answering connected

abbrev again : Relay toy_lwip
again = step toy toy_lwip answering answered

abbrev ended : Relay toy_lwip
ended = step toy toy_lwip written again

ended_open : ended.closing ≡ false
unfolding step on_resolved on_recv client_salt derive_subkey encrypt_tcp_chunk crypt increment_nonce
ended_open = refl

ended-Reached : Reached toy toy_lwip fresh ended (hello ++ hello)
unfolding step on_resolved on_recv client_salt derive_subkey encrypt_tcp_chunk crypt increment_nonce
ended-Reached =
    more {stream = hello ++ hello} written
      (more {stream = hello} answering
        (more {stream = []} answering
          (more {stream = []} connecting (here refl refl) (omega arith, tt) refl refl)
          (omega arith, refl) refl refl)
        (omega arith, refl) refl refl)
      (omega arith, tt) refl refl

Reached-Carried_example : Carried toy toy_lwip key (outgoing toy_lwip ended) (hello ++ hello)
Reached-Carried_example =
    Reached-Carried toy toy_lwip key 20000 ended (hello ++ hello) toy-IsCrypto ended-Reached
      ended_open

Reached-window_example : ended.recved + ended.deferred_tcp_recved ≡ length (hello ++ hello)
Reached-window_example =
    Reached-window toy toy_lwip key 20000 ended (hello ++ hello) toy-IsCrypto ended-Reached
      ended_open

Reached-bounded_example :
    (total ended.pending_client ≤ client_queue_high_water + 32 + 35 * tcp_wnd)
    × (ended.client_queue_bytes ≡ total ended.pending_client)
    × (ended.deferred_tcp_recved ≤ tcp_wnd)
Reached-bounded_example =
    Reached-bounded toy toy_lwip key 20000 ended (hello ++ hello) toy-IsCrypto ended-Reached
      ended_open

complete_writes-Carried_example :
    let r' = complete_writes toy toy_lwip (length ended.pending_client) ended in
    (r'.pending_client ≡ [])
    × (r'.writes ≡ outgoing toy_lwip ended)
    × Carried toy toy_lwip key r'.writes (hello ++ hello)
complete_writes-Carried_example =
    complete_writes-Carried toy toy_lwip key 20000 ended (hello ++ hello) toy-IsCrypto ended-Reached
      ended_open

-- The client names an address and sends hello to it in one chunk.
abbrev front : Bytes
front = 1 ∷ 127 ∷ 0 ∷ 0 ∷ 1 ∷ 1 ∷ 187 ∷ []

abbrev opening : Bytes
opening =
    0
    ∷ 12
    ∷ ((replicate 4 3 ++ replicate 12 0)
        ++ ((front ++ hello) ++ (replicate 4 3 ++ (1 ∷ replicate 11 0))))

abbrev waiting : Relay toy_lwip
waiting = record fresh { crypto = receiver }

opening_sealed : encrypt_tcp_chunk toy (front ++ hello) sender ≡ (sender', ok opening)
unfolding encrypt_tcp_chunk crypt increment_nonce
opening_sealed = refl

front_encoded : encode_ss_address toy_asio v4_target ≡ ok front
unfolding encode_ss_address
front_encoded = refl

read_loop-encode_ss_address_example :
    read_loop toy toy_lwip 70 opening waiting
    ≡ read_whole toy toy_lwip (
        then_queue toy_lwip hello (
          connect_target toy_lwip v4_target
            (record waiting { crypto = followed toy sender' receiver; got_target = true })))
read_loop-encode_ss_address_example =
    read_loop-encode_ss_address toy toy_asio toy_lwip 68 v4_target front hello opening sender
      sender' waiting toy-IsCrypto toy_asio-IsAsio v4_target-IsTarget front_encoded opening_sealed
      sender-Synced refl

-- A chunk of one byte that is no type of an address, and behind it the chunk that names an address.
abbrev sealed_bad : Bytes
sealed_bad =
    0 ∷ 1 ∷ ((replicate 4 3 ++ replicate 12 0) ++ (9 ∷ (replicate 4 3 ++ (1 ∷ replicate 11 0))))

abbrev sealed_behind : Bytes
sealed_behind =
    0
    ∷ 12
    ∷ ((replicate 4 3 ++ (2 ∷ replicate 11 0))
        ++ ((front ++ hello) ++ (replicate 4 3 ++ (3 ∷ replicate 11 0))))

bad_sealed : encrypt_tcp_chunk toy (9 ∷ []) sender ≡ (sender', ok sealed_bad)
unfolding encrypt_tcp_chunk crypt increment_nonce
bad_sealed = refl

abbrev sender'' : Session
sender'' = record sender { send_nonce = 4 ∷ replicate 11 0 }

behind_sealed : encrypt_tcp_chunk toy (front ++ hello) sender' ≡ (sender'', ok sealed_behind)
unfolding encrypt_tcp_chunk crypt increment_nonce
behind_sealed = refl

bad_unparsed : (parse_ss_address (9 ∷ [])).0 ≡ none
unfolding parse_ss_address
bad_unparsed = refl

closed_session_connects_example :
    (r' : Relay toy_lwip) × (read_loop toy toy_lwip 80 (sealed_bad ++ sealed_behind) waiting
      ≡ some (r', ok []))
    × (r'.closing ≡ true)
    × (r'.socket_open ≡ false)
    × (r'.pcb ≡ (toy_lwip.tcp_new_pcb (close toy_lwip waiting).lwip).0)
    × (r'.active_self ≡ is_some r'.pcb)
closed_session_connects_example =
    closed_session_connects toy toy_asio toy_lwip 77 (9 ∷ []) front hello sealed_bad sealed_behind
      v4_target (codes "127.0.0.1") sender sender' sender'' waiting toy-IsCrypto toy_asio-IsAsio
      v4_target-IsTarget refl refl bad_unparsed front_encoded bad_sealed behind_sealed sender-Synced
      refl refl
