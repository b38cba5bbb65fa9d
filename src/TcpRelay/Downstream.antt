-- ===== src/TcpRelay/Downstream.antt =====
-- What the target sends: payloads are sealed, queued and written to the client, and lwIP is told how
-- much it may send again.
use ovpn2ss.Common.{
  ℕ, zero, suc, ◌+◌, true, false, not, ◌&&◌, Option, none, some, Bytes, List, [], ◌∷◌, ◌++◌, ltb,
  ◌==◌, if◌then◌else◌, is_empty, length, drop, min,
}
use ovpn2ss.Common.Outcome.{Result, ok, err}
use ovpn2ss.Aead.Crypto.{Crypto}
use ovpn2ss.Aead.Session.{client_salt, encrypt_tcp_chunk}
use ovpn2ss.Lwip.{Lwip, Err}
use ovpn2ss.TcpRelay.State.{
  Relay, add_size, sub_size, client_queue_low_water, client_queue_high_water,
}
use ovpn2ss.TcpRelay.Closing.{is_ok, close, handle_remote_fin}

module _ (l : Lwip) where
  -- `pending_client_.push_back` with its size.
  abbrev pub push_client : Bytes → Relay l → Relay l
  push_client bytes r = record r {
    pending_client = r.pending_client ++ bytes ∷ [];
    client_queue_bytes = add_size r.client_queue_bytes (length bytes);
  }

  -- flush_to_client, up to the start of the write of the front buffer.
  unfoldable pub start_write : List Bytes → Relay l → Relay l
  start_write [] r = r
  start_write (front ∷ rest) r =
      if r.writing_client
      then r
      else record r { writing_client = true; writes = r.writes ++ front ∷ [] }

  unfoldable pub flush_to_client : Relay l → Relay l
  unfolding start_write
  flush_to_client r = start_write r.pending_client r

  -- tcp_recved with its amount, also added to the sum of all such calls.
  abbrev pub tcp_recved : ℕ → ℕ → Relay l → Relay l
  tcp_recved p n r = record r { lwip = l.tcp_recved r.lwip p n; recved = r.recved + n }

  -- One round of the loop in flush_to_client's completion: `tcp_recved` takes a u16_t.
  abbrev pub ack_round : ℕ → Relay l → Relay l
  ack_round p r =
      let n = min r.deferred_tcp_recved 0xffff in
      record (tcp_recved p n r) { deferred_tcp_recved = sub_size r.deferred_tcp_recved n }

  -- The loop, on fuel.
  unfoldable pub ack_loop : ℕ → ℕ → Relay l → Relay l
  ack_loop zero p r = r
  ack_loop (suc fuel) p r =
      let rest = ack_loop fuel p (ack_round p r) in if r.deferred_tcp_recved == 0 then r else rest

  -- A round takes one byte at least.
  unfoldable pub ack_deferred : Relay l → Relay l
  unfolding ack_loop
  ack_deferred r = elim r.pcb [
    | none ↦ r
    | some p ↦
        if ltb r.client_queue_bytes client_queue_low_water && not (r.deferred_tcp_recved == 0)
        then ack_loop r.deferred_tcp_recved p r
        else r
  ]

  -- The front buffer has been written.
  abbrev pub pop_client : ℕ → Relay l → Relay l
  pop_client n r = record r {
    writing_client = false;
    client_queue_bytes = sub_size r.client_queue_bytes n;
    pending_client = drop 1 r.pending_client;
  }

  -- The completion of a write: an error, or the number of bytes that were written.
  unfoldable pub on_write : Option ℕ → Relay l → Relay l
  unfolding close ack_deferred flush_to_client
  on_write none r = close l (record r { writing_client = false })
  on_write (some n) r = flush_to_client (ack_deferred (pop_client n r))

module _ (c : Crypto) (l : Lwip) where
  -- The salt of the answers goes out before the first chunk. `draw` is what the generator gives.
  unfoldable pub send_salt : Option Bytes → Relay l → Relay l × Result (Unit {0})
  send_salt draw r =
      let (s, answer) = client_salt c draw r.crypto in
      let r1 = record r { crypto = s } in
      if r.sent_response_salt then (r, ok tt) else elim answer [
        | ok salt ↦ (record (push_client l salt r1) { sent_response_salt = true }, ok tt)
        | err e ↦ (r1, err e)
      ]

  unfoldable pub send_chunk : Bytes → Relay l → Relay l × Result (Unit {0})
  unfolding flush_to_client
  send_chunk bytes r =
      let (s, answer) = encrypt_tcp_chunk c bytes r.crypto in
      let r1 = record r { crypto = s } in
      elim answer [
        | ok encrypted ↦ (flush_to_client l (push_client l encrypted r1), ok tt)
        | err e ↦ (r1, err e)
      ]

  -- What the first call threw ends the second.
  abbrev pub and_then :
      Relay l × Result (Unit {0})
      → (Relay l → Relay l × Result (Unit {0}))
      → Relay l × Result (Unit {0})
  and_then (r, ok u) next = next r
  and_then (r, err e) next = (r, err e)

  unfoldable pub enqueue_client_payload :
      Option Bytes → Bytes → Relay l → Relay l × Result (Unit {0})
  unfolding send_salt send_chunk
  enqueue_client_payload draw bytes r =
      if is_empty bytes then (r, ok tt) else and_then (send_salt draw r) (send_chunk bytes)

  -- Behind enqueue_client_payload in on_recv: hold the window back, or open it.
  abbrev pub settle : ℕ → ℕ → Relay l × Result (Unit {0}) → Relay l
  settle p received (r, err e) = close l r
  settle p received (r, ok u) =
      if ltb client_queue_high_water r.client_queue_bytes
      then record r { deferred_tcp_recved = add_size r.deferred_tcp_recved received }
      else tcp_recved l p received r

  -- on_recv on pcb `p`: the error code, and the payload or a null pointer. It answers ERR_OK.
  unfoldable pub on_recv : Option Bytes → ℕ → Option Bytes → Err → Relay l → Relay l
  unfolding close handle_remote_fin enqueue_client_payload
  on_recv draw p none e r = if is_ok e then handle_remote_fin l r else close l r
  on_recv draw p (some bytes) e r =
      if is_ok e then settle p (length bytes) (enqueue_client_payload draw bytes r) else close l r
