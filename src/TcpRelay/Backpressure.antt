-- ===== src/TcpRelay/Backpressure.antt =====
-- flush_to_lwip hands the queue to lwIP from the front, and stops the client when lwIP is full.
use ovpn2ss.Common.{
  ℕ, ◌≤◌, ◌<◌, ◌≡◌, ◌≢◌, refl, ap, true, false, some, inl, inr, ◌⊎◌, Bytes, List, [], ◌∷◌, ◌++◌,
  length, arith, Bool-cases,
}
use ovpn2ss.Lwip.{Lwip, Err, err_ok, err_mem}
use ovpn2ss.TcpRelay.State.{Relay, lwip_snd_low_water, lwip_snd_queue_high_water}
use ovpn2ss.TcpRelay.Closing.{is_ok, close}
use ovpn2ss.TcpRelay.Upstream.{u16_cut, is_full, is_mem, flush_loop, flush_to_lwip}

is_ok-err_ok : (e : Err) → is_ok e ≡ true → e ≡ err_ok
is_ok-err_ok e h = ground arith

not-err_ok : (e : Err) → is_ok e ≡ false → e ≢ err_ok
not-err_ok e h eq = ground arith

module _ (l : Lwip) where
  -- The send buffer has room for the packet, is not low, and its queue is not long.
  pub record HasRoom (p : ℕ) (s : l.State) (pkt : Bytes) : Type 0 where
    pub fits : length pkt ≤ l.tcp_sndbuf s p
    pub not_low : lwip_snd_low_water ≤ l.tcp_sndbuf s p
    pub not_long : l.tcp_sndqueuelen s p < lwip_snd_queue_high_water

  abbrev pub LacksRoom : ℕ → l.State → Bytes → Type 0
  LacksRoom p s pkt =
      (l.tcp_sndbuf s p < length pkt)
      ⊎ ((l.tcp_sndbuf s p < lwip_snd_low_water)
          ⊎ (lwip_snd_queue_high_water ≤ l.tcp_sndqueuelen s p))

  -- tcp_write took these packets one after the other, each when there was room for it, from one
  -- state of lwIP to another.
  pub data Wrote (p : ℕ) (t : l.State) : l.State → List Bytes → Type 0 where
    stop : {s : l.State} → s ≡ t → Wrote p t s []
    wrote :
        {s : l.State} {q : List Bytes} (pkt : Bytes)
        → HasRoom p s pkt
        → (l.tcp_write s p (u16_cut pkt)).0 ≡ err_ok
        → Wrote p t (l.tcp_write s p (u16_cut pkt)).1 q
        → Wrote p t s (pkt ∷ q)

  -- How a flush of `r` ends as `r'`, with lwIP in state `s` behind the packets that it took, and
  -- these packets left.
  pub data Ended (p : ℕ) (r r' : Relay l) (s : l.State) : List Bytes → Type 0 where
    emptied : r' ≡ record r { pending_lwip = []; lwip = l.tcp_output s p } → Ended p r r' s []
    filled :
        {pkt : Bytes} {rest : List Bytes}
        → LacksRoom p s pkt
        → r' ≡ record r {
          pending_lwip = pkt ∷ rest;
          client_read_paused = true;
          lwip = l.tcp_output s p;
        }
        → Ended p r r' s (pkt ∷ rest)
    out_of_memory :
        {pkt : Bytes} {rest : List Bytes}
        → HasRoom p s pkt
        → (l.tcp_write s p (u16_cut pkt)).0 ≡ err_mem
        → r' ≡ record r {
          pending_lwip = pkt ∷ rest;
          client_read_paused = true;
          lwip = l.tcp_output (l.tcp_write s p (u16_cut pkt)).1 p;
        }
        → Ended p r r' s (pkt ∷ rest)
    refused :
        {pkt : Bytes} {rest : List Bytes}
        → HasRoom p s pkt
        → (l.tcp_write s p (u16_cut pkt)).0 ≢ err_ok
        → (l.tcp_write s p (u16_cut pkt)).0 ≢ err_mem
        → r'
          ≡ close l
              (record r { pending_lwip = pkt ∷ rest; lwip = (l.tcp_write s p (u16_cut pkt)).1 })
        → Ended p r r' s (pkt ∷ rest)

  -- The queue splits into the packets that lwIP took, in order, and those that stay queued.
  pub record Flushed (p : ℕ) (q : List Bytes) (r r' : Relay l) : Type 0 where
    pub handed : List Bytes
    pub left : List Bytes
    pub last : l.State
    pub splits : q ≡ handed ++ left
    pub taken : Wrote p last r.lwip handed
    pub ends : Ended p r r' last left

  is_mem-err_mem : (e : Err) → is_mem l e ≡ true → e ≡ err_mem
  is_mem-err_mem e h = ground arith

  not-err_mem : (e : Err) → is_mem l e ≡ false → e ≢ err_mem
  not-err_mem e h eq = ground arith

  room-HasRoom : (p : ℕ) (s : l.State) (pkt : Bytes) → is_full l p s pkt ≡ false → HasRoom p s pkt
  room-HasRoom p s pkt h = record {
    fits = ground arith;
    not_low = ground arith;
    not_long = ground arith;
  }

  full-LacksRoom :
      (p : ℕ) (s : l.State) (pkt : Bytes) → is_full l p s pkt ≡ true → LacksRoom p s pkt
  full-LacksRoom p s pkt h = ground arith

  Flushed-here :
      (p : ℕ) (q : List Bytes) (r r' : Relay l) → Ended p r r' r.lwip q → Flushed p q r r'
  Flushed-here p q r r' e = record {
    handed = [];
    left = q;
    last = r.lwip;
    splits = refl;
    taken = stop refl;
    ends = e;
  }

  -- What ends a session with lwIP in a later state ends the session before it.
  Ended-later :
      (p : ℕ) (r r' : Relay l) (s t : l.State) (q : List Bytes)
      → Ended p (record r { lwip = t }) r' s q
      → Ended p r r' s q
  Ended-later p r r' s t [] (emptied e) = emptied e
  Ended-later p r r' s t (pkt ∷ q) (filled a e) = filled a e
  Ended-later p r r' s t (pkt ∷ q) (out_of_memory a b e) = out_of_memory a b e
  Ended-later p r r' s t (pkt ∷ q) (refused a b d e) = refused a b d e

  flush_loop-Flushed : (p : ℕ) (q : List Bytes) (r : Relay l) → Flushed p q r (flush_loop l p q r)
  unfolding flush_loop
  flush_loop-Flushed p [] r = Flushed-here p [] r _ (emptied refl)
  flush_loop-Flushed p (pkt ∷ q) r =
      let (e, lwip) = l.tcp_write r.lwip p (u16_cut pkt) in
      let more = flush_loop-Flushed p q (record r { lwip = lwip }) in
      elim (Bool-cases (is_full l p r.lwip pkt)) [
        | inl full ↦
            rw full (Flushed-here p (pkt ∷ q) r _ (filled (full-LacksRoom p r.lwip pkt full) refl))
        | inr free ↦
            let room = room-HasRoom p r.lwip pkt free in
            elim (Bool-cases (is_mem l e)) [
              | inl mem ↦
                  rw (free, mem)
                    (Flushed-here p (pkt ∷ q) r _ (out_of_memory room (is_mem-err_mem e mem) refl))
              | inr other ↦ elim (Bool-cases (is_ok e)) [
                | inl good ↦
                    rw (free, other, good)
                      (record {
                        handed = pkt ∷ more.handed;
                        left = more.left;
                        last = more.last;
                        splits = ap (◌∷◌ pkt) more.splits;
                        taken = wrote pkt room (is_ok-err_ok e good) more.taken;
                        ends = Ended-later p r _ more.last lwip more.left more.ends;
                      })
                | inr bad ↦
                    rw (free, other, bad)
                      (Flushed-here p (pkt ∷ q) r _
                        (refused room (not-err_ok e bad) (not-err_mem e other) refl))
              ]
            ]
      ]

  flush_to_lwip-flush_loop :
      (p : ℕ) (r : Relay l) → r.pcb ≡ some p → flush_to_lwip l r ≡ flush_loop l p r.pending_lwip r
  unfolding flush_to_lwip
  flush_to_lwip-flush_loop p r e = ground arith

  -- On a session with a pcb, a flush hands packets from the front of the queue to lwIP, in order,
  -- each cut to the length that a u16_t holds, each when the send buffer has room for all of it and
  -- is not below the low water and the send queue is below the high water, and each accepted. It
  -- then does one of four things, and the session is known as a whole in each: the queue is empty
  -- and lwIP is told to send; the next packet lacks that room, stays first in the queue, reading
  -- from the client is paused and lwIP is told to send; the same with room, when tcp_write answers
  -- ERR_MEM; or with room, when it answers another error, the session is closed with the rest still
  -- queued.
  pub flush_to_lwip-Flushed :
      (p : ℕ) (r : Relay l) → r.pcb ≡ some p → Flushed p r.pending_lwip r (flush_to_lwip l r)
  flush_to_lwip-Flushed p r e =
      rw (flush_to_lwip-flush_loop p r e) (flush_loop-Flushed p r.pending_lwip r)
