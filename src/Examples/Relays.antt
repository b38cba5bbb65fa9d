-- ===== src/Examples/Relays.antt =====
-- Sessions of src/TcpRelaySession.cpp that run on the small cipher and the small lwIP.
use ovpn2ss.Common.{
  ℕ, ◌≡◌, inl, refl, none, some, true, ◌++◌, [], ◌∷◌, replicate, arith, same, length-replicate,
}
use ovpn2ss.Common.Outcome.{ok}
use ovpn2ss.Aead.Nonce.{increment_nonce}
use ovpn2ss.Aead.Session.{
  Session, crypt, decrypt, open_payload, encrypt_tcp_chunk, decrypt_tcp_chunk,
}
use ovpn2ss.Lwip.{err_ok}
use ovpn2ss.TcpRelay.State.{Relay, init}
use ovpn2ss.TcpRelay.Upstream.{process_decrypted_chunk, flush_to_lwip, on_connected, on_sent}
use ovpn2ss.TcpRelay.Downstream.{on_recv}
use ovpn2ss.TcpRelay.Reading.{gave, read_loop, on_read}
use ovpn2ss.TcpRelay.Teardown.{IsTidy}
use ovpn2ss.TcpRelay.Order.{IsQueued}
use ovpn2ss.TcpRelay.Backpressure.{Flushed, flush_to_lwip-Flushed}
use ovpn2ss.TcpRelay.Segments.{on_read_total, read_loop-append}
use ovpn2ss.TcpRelay.Hazards.{two_reads_in_flight, on_recv_large}
use ovpn2ss.Examples.Toy.{toy, toy_lwip}
use ovpn2ss.Examples.Sessions.{key, receiver, hello, sealed}

-- A session with its pcb, both salts sent; lwIP has `room` bytes free.
abbrev relay : ℕ → Relay toy_lwip
relay room = record (init toy_lwip key room) {
  crypto = record receiver { send_key = replicate 32 3; sent_salt = true };
  active_self = true;
  pcb = some 7;
  got_target = true;
  sent_response_salt = true;
  reads = 1;
}

-- As above, with two packets for lwIP.
abbrev loaded : ℕ → Relay toy_lwip
loaded room = record (relay room) { pending_lwip = hello ∷ hello ∷ [] }

-- As above, with a buffer that is being written to the client, another behind it, and 70000 bytes
-- that lwIP has not been told of.
abbrev writing : Relay toy_lwip
writing = record (relay 0) {
  pending_client = hello ∷ (1 ∷ []) ∷ [];
  client_queue_bytes = 6;
  writing_client = true;
  deferred_tcp_recved = 70000;
  writes = hello ∷ [];
}

relay-IsTidy : (room : ℕ) → IsTidy toy_lwip (relay room)
relay-IsTidy room = record { tidy = inl refl }

writing-IsQueued : IsQueued toy_lwip writing
writing-IsQueued = record { counted = refl; busy = refl }

relay-IsQueued : IsQueued toy_lwip (relay 0)
relay-IsQueued = record { counted = refl; busy = refl }

abbrev sealing : Session
sealing = record receiver {
  send_key = replicate 32 3;
  sent_salt = true;
  send_nonce = 2 ∷ replicate 11 0;
}

relay_seals : encrypt_tcp_chunk toy hello (relay 0).crypto ≡ (sealing, ok sealed)
unfolding encrypt_tcp_chunk crypt increment_nonce
relay_seals = refl

-- Two packets, of which lwIP has room for one.
flush_to_lwip-Flushed_example :
    Flushed toy_lwip 7 (hello ∷ hello ∷ []) (loaded 10884) (flush_to_lwip toy_lwip (loaded 10884))
flush_to_lwip-Flushed_example = flush_to_lwip-Flushed toy_lwip 7 (loaded 10884) refl

on_read_total_example :
    (r' : Relay toy_lwip) × (on_read toy toy_lwip (gave sealed) (relay 20000) ≡ some r')
on_read_total_example = on_read_total toy toy_lwip (gave sealed) (relay 20000)

abbrev one_read : Relay toy_lwip
one_read = record (relay 20000) {
  crypto = record receiver {
    send_key = replicate 32 3;
    sent_salt = true;
    recv_nonce = 2 ∷ replicate 11 0;
  };
  pending_lwip = hello ∷ [];
}

stops : read_loop toy toy_lwip 80 (sealed ++ (0 ∷ [])) (relay 20000) ≡ some (one_read, ok (0 ∷ []))
unfolding read_loop decrypt_tcp_chunk open_payload decrypt increment_nonce same
    process_decrypted_chunk
stops = refl

-- A chunk and the start of the next, then the rest of that.
read_loop-append_example :
    read_loop toy toy_lwip 100 (sealed ++ (0 ∷ []) ++ (5 ∷ [])) (relay 20000)
    ≡ read_loop toy toy_lwip 50 ((0 ∷ []) ++ (5 ∷ [])) one_read
read_loop-append_example =
    read_loop-append toy toy_lwip 80 100 50 (sealed ++ (0 ∷ [])) (5 ∷ []) (0 ∷ []) (relay 20000)
      one_read stops (omega arith) (omega arith)

two_reads_in_flight_example :
    (on_sent toy_lwip (record (on_connected toy_lwip err_ok (loaded 0)) { lwip = 20000 })).reads ≡ 2
unfolding flush_to_lwip
two_reads_in_flight_example =
    two_reads_in_flight toy_lwip 7 (loaded 0) 20000 refl refl refl refl refl refl

on_recv_large_example :
    (on_recv toy toy_lwip none 7 (some (replicate 16384 0)) err_ok (relay 0)).closing ≡ true
on_recv_large_example =
    on_recv_large toy toy_lwip none 7 (replicate 16384 0) (relay 0)
      (omega (arith, length-replicate {A = ℕ} 16384 0))
