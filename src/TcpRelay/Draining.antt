-- ===== src/TcpRelay/Draining.antt =====
-- The queue of answers empties: once its writes complete, all that is for the client is written.
use ovpn2ss.Common.{
  ℕ, zero, suc, ◌≡◌, refl, sym, ap, ◌∙◌, true, false, some, Bytes, List, [], ◌∷◌, length, drop,
  arith, append-nil,
}
use ovpn2ss.Aead.Crypto.{Crypto, IsCrypto}
use ovpn2ss.Lwip.{Lwip}
use ovpn2ss.TcpRelay.State.{Relay, init}
use ovpn2ss.TcpRelay.Downstream.{on_write, flush_to_client, ack_deferred, pop_client}
use ovpn2ss.TcpRelay.Order.{outgoing, on_write-outgoing, ack_deferred-SameQueue}
use ovpn2ss.TcpRelay.Events.{written, step, on_written, Reached}
use ovpn2ss.TcpRelay.Sound.{IsActive}
use ovpn2ss.TcpRelay.Delivery.{start_write-Started, start_write-IsActive}
use ovpn2ss.TcpRelay.Runs.{Carried, Reached-IsSound, Reached-Carried}

module _ (c : Crypto) (l : Lwip) where
  -- Writes complete, so many in a row.
  unfoldable pub complete_writes : ℕ → Relay l → Relay l
  unfolding step
  complete_writes zero r = r
  complete_writes (suc n) r = complete_writes n (step c l written r)

  active_writes :
      (front : Bytes) (rest : List Bytes) (r : Relay l)
      → r.pending_client ≡ front ∷ rest
      → IsActive l r
      → r.writing_client ≡ true
  active_writes front rest r e active = ground arith

  written_busy :
      (front : Bytes) (rest : List Bytes) (r : Relay l)
      → r.pending_client ≡ front ∷ rest
      → IsActive l r
      → step c l written r ≡ on_write l (some (length front)) r
  unfolding step on_written
  written_busy front rest r e active =
      let w = active_writes front rest r e active in ap (λ q. on_written l q r) e ∙ rw w refl

  on_write-pending :
      (front : Bytes) (rest : List Bytes) (r : Relay l)
      → r.pending_client ≡ front ∷ rest
      → (on_write l (some (length front)) r).pending_client ≡ rest
  unfolding on_write flush_to_client
  on_write-pending front rest r e =
      let r1 = pop_client l (length front) r in
      let r2 = ack_deferred l r1 in
      (start_write-Started l r2.pending_client r2).pending
      ∙ (ack_deferred-SameQueue l r1).same_pending
      ∙ ap (drop 1) e

  on_write-IsActive : (n : ℕ) (r : Relay l) → IsActive l (on_write l (some n) r)
  unfolding on_write flush_to_client
  on_write-IsActive n r =
      let r2 = ack_deferred l (pop_client l n r) in start_write-IsActive l r2.pending_client r2 refl

  drained : (r : Relay l) → r.pending_client ≡ [] → outgoing l r ≡ r.writes
  drained r e = ground (arith, append-nil r.writes)

  complete_writes_none : (r : Relay l) → complete_writes zero r ≡ r
  unfolding complete_writes
  complete_writes_none r = refl

  complete_writes_next :
      (n : ℕ) (r r1 : Relay l)
      → step c l written r ≡ r1
      → complete_writes (suc n) r ≡ complete_writes n r1
  unfolding complete_writes
  complete_writes_next n r r1 e = ap (complete_writes n) e

  complete_writes_lem :
      (q : List Bytes) (r : Relay l)
      → r.pending_client ≡ q
      → IsActive l r
      → let r' = complete_writes (length q) r in
        (r'.pending_client ≡ []) × (r'.writes ≡ outgoing l r)
  complete_writes_lem [] r e active = rw (complete_writes_none r) (e, sym (drained r e))
  complete_writes_lem (front ∷ rest) r e active =
      let r1 = on_write l (some (length front)) r in
      let same = on_write-outgoing l front rest r (active_writes front rest r e active) e in
      let (left, all) =
        complete_writes_lem rest r1 (on_write-pending front rest r e)
          (on_write-IsActive (length front) r) in
      rw (complete_writes_next (length rest) r r1 (written_busy front rest r e active))
        (left, all ∙ same)

module _ (c : Crypto) (l : Lwip) (key : Bytes) where
  -- On every session that is reached and not closing, once as many writes complete as there are
  -- buffers in the client's queue, the queue is empty and all that was for the client is written,
  -- in order; and a client opens what is written to exactly the bytes that lwIP has delivered, by a
  -- salt that it takes and the chunks behind it, or nothing was delivered and nothing written.
  pub complete_writes-Carried :
      (lwip : l.State) (r : Relay l) (stream : Bytes)
      → IsCrypto c
      → Reached c l (init l key lwip) r stream
      → r.closing ≡ false
      → let r' = complete_writes c l (length r.pending_client) r in
        (r'.pending_client ≡ []) × (r'.writes ≡ outgoing l r) × Carried c l key r'.writes stream
  complete_writes-Carried lwip r stream v run opened =
      let s = Reached-IsSound c l key lwip r stream v run opened in
      let (left, all) = complete_writes_lem c l r.pending_client r refl s.active in
      (left, all, rw all (Reached-Carried c l key lwip r stream v run opened))
