-- ===== src/TcpRelay/Window.antt =====
-- The receive window of the target's connection: every byte that lwIP delivered is either given back
-- by tcp_recved or held back, and what is held back is given back once the client's queue is short.
use ovpn2ss.Common.{
  ℕ, zero, suc, ◌+◌, ◌^◌, ◌≤◌, ◌<◌, ◌≡◌, refl, ◌∙◌, true, Option, some, inl, inr, ◌⊎◌, Bytes, List,
  [], ◌∷◌, length, is_empty, arith, Bool-cases,
}
use ovpn2ss.Common.Outcome.{Result, ok, err, Result-cases}
use ovpn2ss.Aead.Crypto.{Crypto}
use ovpn2ss.Aead.Session.{encrypt_tcp_chunk}
use ovpn2ss.Lwip.{Lwip, err_ok}
use ovpn2ss.TcpRelay.State.{Relay, client_queue_low_water}
use ovpn2ss.TcpRelay.Closing.{close}
use ovpn2ss.TcpRelay.Downstream.{
  start_write, flush_to_client, ack_round, ack_loop, ack_deferred, pop_client, on_write, settle,
  push_client, send_salt, send_chunk, and_then, enqueue_client_payload, on_recv,
}

module _ (l : Lwip) where
  -- All bytes that lwIP has delivered, given back or held back.
  abbrev pub delivered : Relay l → ℕ
  delivered r = r.recved + r.deferred_tcp_recved

  -- The loop gives back all that is held back, in as many calls as a u16_t needs; as many rounds as
  -- bytes are enough.
  pub ack_loop_lem :
      (fuel p : ℕ) (r : Relay l)
      → r.deferred_tcp_recved ≤ fuel
      → r.deferred_tcp_recved < 2 ^ 64
      → ((ack_loop l fuel p r).deferred_tcp_recved ≡ 0)
        × ((ack_loop l fuel p r).recved ≡ r.recved + r.deferred_tcp_recved)
        × ((ack_loop l fuel p r).client_queue_bytes ≡ r.client_queue_bytes)
  unfolding ack_loop
  ack_loop_lem zero p r h b = omega arith
  ack_loop_lem (suc fuel) p r h b = ground (arith, ack_loop_lem fuel p (ack_round l p r))

  pub start_write-delivered :
      (q : List Bytes) (r : Relay l)
      → ((start_write l q r).recved ≡ r.recved)
        × ((start_write l q r).deferred_tcp_recved ≡ r.deferred_tcp_recved)
        × ((start_write l q r).client_queue_bytes ≡ r.client_queue_bytes)
  unfolding start_write
  start_write-delivered [] r = (refl, refl, refl)
  start_write-delivered (x ∷ q) r = ground arith

  ack_deferred_window :
      (p : ℕ) (r : Relay l)
      → r.pcb ≡ some p
      → r.deferred_tcp_recved < 2 ^ 64
      → (delivered (ack_deferred l r) ≡ delivered r)
        × ((client_queue_low_water ≤ (ack_deferred l r).client_queue_bytes)
            ⊎ ((ack_deferred l r).deferred_tcp_recved ≡ 0))
  unfolding ack_deferred
  ack_deferred_window p r e b =
      rw (e, ack_deferred)
        (
          ground (arith, ack_loop_lem r.deferred_tcp_recved p r),
          ground (arith, ack_loop_lem r.deferred_tcp_recved p r),
        )

  -- On a session with a pcb, a completed write changes nothing about how many bytes are given back
  -- to lwIP or held back in all; and when the client's queue is then below the low mark, nothing is
  -- held back any more.
  pub on_write_window :
      (n p : ℕ) (r : Relay l)
      → r.pcb ≡ some p
      → r.deferred_tcp_recved < 2 ^ 64
      → let r' = on_write l (some n) r in
        (delivered r' ≡ delivered r)
        × ((client_queue_low_water ≤ r'.client_queue_bytes) ⊎ (r'.deferred_tcp_recved ≡ 0))
  unfolding on_write flush_to_client
  on_write_window n p r e b =
      let r1 = pop_client l n r in
      let (a, d, q) =
        start_write-delivered (ack_deferred l r1).pending_client (ack_deferred l r1) in
      let (kept, drained) = ack_deferred_window p r1 e b in rw (a, d, q) (kept, drained)

module _ (c : Crypto) (l : Lwip) where
  -- Sealing and queueing a payload does not touch the window.
  abbrev Untouched : Relay l → Relay l → Type 0
  Untouched r r' = (r'.recved ≡ r.recved) × (r'.deferred_tcp_recved ≡ r.deferred_tcp_recved)

  send_salt-Untouched : (draw : Option Bytes) (r : Relay l) → Untouched r (send_salt c l draw r).0
  unfolding send_salt
  send_salt-Untouched draw r = ground arith

  send_chunk-Untouched : (bytes : Bytes) (r : Relay l) → Untouched r (send_chunk c l bytes r).0
  unfolding send_chunk
  send_chunk-Untouched bytes r = elim (Result-cases (encrypt_tcp_chunk c bytes r.crypto).1) [
    | inr (x, e) ↦ rw (e, send_chunk) (refl, refl)
    | inl (out, e) ↦
        let (a, d, q) =
          start_write-delivered l _
            (push_client l out (record r { crypto = (encrypt_tcp_chunk c bytes r.crypto).0 })) in
        rw (e, send_chunk) (a, d)
  ]

  and_then-Untouched :
      (bytes : Bytes) (r : Relay l) (m : Relay l × Result (Unit {0}))
      → Untouched r m.0
      → Untouched r (and_then c l m (send_chunk c l bytes)).0
  and_then-Untouched bytes r (r1, ok u) k =
      let k1 = send_chunk-Untouched bytes r1 in (k1.0 ∙ k.0, k1.1 ∙ k.1)
  and_then-Untouched bytes r (r1, err e) k = k

  enqueue_client_payload-Untouched :
      (draw : Option Bytes) (bytes : Bytes) (r : Relay l)
      → Untouched r (enqueue_client_payload c l draw bytes r).0
  unfolding enqueue_client_payload
  enqueue_client_payload-Untouched draw bytes r = elim (Bool-cases (is_empty bytes)) [
    | inl e ↦ rw e (refl, refl)
    | inr e ↦ rw e (and_then-Untouched bytes r (send_salt c l draw r) (send_salt-Untouched draw r))
  ]

  settle_window :
      (p n : ℕ) (m : Relay l × Result (Unit {0}))
      → m.0.deferred_tcp_recved + n < 2 ^ 64
      → ((settle c l p n m).closing ≡ true) ⊎ (delivered l (settle c l p n m) ≡ delivered l m.0 + n)
  unfolding close
  settle_window p n (r, ok u) b = inr (ground arith)
  settle_window p n (r, err e) b = inl (ground arith)

  -- A payload that lwIP delivers is given back or held back, to the byte, unless the session is
  -- closed over it; the amount held back stays within a std::size_t.
  pub on_recv_window :
      (draw : Option Bytes) (p : ℕ) (bytes : Bytes) (r : Relay l)
      → r.deferred_tcp_recved + length bytes < 2 ^ 64
      → let r' = on_recv c l draw p (some bytes) err_ok r in
        (r'.closing ≡ true) ⊎ (delivered l r' ≡ delivered l r + length bytes)
  unfolding on_recv
  on_recv_window draw p bytes r b =
      let m = enqueue_client_payload c l draw bytes r in
      let k = enqueue_client_payload-Untouched draw bytes r in
      elim (settle_window p (length bytes) m (omega (arith, k.1))) [
        | inl e ↦ inl e
        | inr e ↦ inr (omega (arith, e, k.0, k.1))
      ]
