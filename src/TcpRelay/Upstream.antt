-- ===== src/TcpRelay/Upstream.antt =====
-- What the client sends: its stream is opened chunk by chunk, the first chunk names the target, and
-- the payloads are queued and handed to lwIP.
use ovpn2ss.Common.{
  ℕ, ◌+◌, ◌%◌, ◌^◌, Bool, true, false, not, ◌||◌, Option, none, some, Bytes, List, [], ◌∷◌, ◌++◌,
  ltb, leb, if◌then◌else◌, is_empty, length, take,
}
use ovpn2ss.Common.Outcome.{Result, ok, err, bad_ip}
use ovpn2ss.Address.{is_domain, TargetAddress, parse_ss_address}
use ovpn2ss.Lwip.{Lwip, Err, err_mem}
use ovpn2ss.TcpRelay.State.{Relay, lwip_snd_low_water, lwip_snd_queue_high_water}
use ovpn2ss.TcpRelay.Closing.{is_ok, close}

-- What lwIP reads of a packet whose size was cast to u16_t.
abbrev pub u16_cut : Bytes → Bytes
u16_cut pkt = take (length pkt % 2 ^ 16) pkt

module _ (l : Lwip) where
  -- read_encrypted_stream, up to the start of the read.
  unfoldable pub read_encrypted_stream : Relay l → Relay l
  read_encrypted_stream r =
      if r.closing || r.client_read_paused then r else record r { reads = r.reads + 1 }

  -- `client_read_paused_ = true; tcp_output(pcb_)`.
  abbrev pub pause : ℕ → Relay l → Relay l
  pause p r = record r { client_read_paused = true; lwip = l.tcp_output r.lwip p }

  -- lwIP cannot take the packet at the front of the queue.
  abbrev pub is_full : ℕ → l.State → Bytes → Bool
  is_full p lwip pkt =
      ltb (l.tcp_sndbuf lwip p) (length pkt)
      || ltb (l.tcp_sndbuf lwip p) lwip_snd_low_water
      || leb lwip_snd_queue_high_water (l.tcp_sndqueuelen lwip p)

  abbrev pub is_mem : Err → Bool
  is_mem err_mem = true
  is_mem _ = false

  -- The loop of flush_to_lwip on the queue.
  unfoldable pub flush_loop : ℕ → List Bytes → Relay l → Relay l
  unfolding close
  flush_loop p [] r =
      let r1 = record r { pending_lwip = [] } in record r1 { lwip = l.tcp_output r1.lwip p }
  flush_loop p (pkt ∷ rest) r =
      let here = record r { pending_lwip = pkt ∷ rest } in
      let (e, lwip) = l.tcp_write r.lwip p (u16_cut pkt) in
      let wrote = record here { lwip = lwip } in
      let next = flush_loop p rest (record r { lwip = lwip }) in
      if is_full p r.lwip pkt
      then pause p here
      else if is_mem e
      then pause p wrote
      else if is_ok e
      then next
      else close l wrote

  unfoldable pub flush_to_lwip : Relay l → Relay l
  unfolding flush_loop
  flush_to_lwip r = elim r.pcb [ none ↦ r | some p ↦ flush_loop p r.pending_lwip r ]

  unfoldable pub maybe_resume_client_read : Relay l → Relay l
  unfolding flush_to_lwip read_encrypted_stream
  maybe_resume_client_read r = elim r.pcb [
    | none ↦ r
    | some p ↦
        if not r.client_read_paused || ltb (l.tcp_sndbuf r.lwip p) lwip_snd_low_water
        then r
        else read_encrypted_stream (flush_to_lwip (record r { client_read_paused = false }))
  ]

  -- on_sent.
  unfoldable pub on_sent : Relay l → Relay l
  unfolding maybe_resume_client_read
  on_sent = maybe_resume_client_read

  -- on_connected; the answer to lwIP is the error code that it passed.
  unfoldable pub on_connected : Err → Relay l → Relay l
  unfolding close flush_to_lwip
  on_connected e r = if is_ok e then flush_to_lwip r else close l r

  unfoldable pub connect_ip : l.Ip → ℕ → Relay l → Relay l
  unfolding close
  connect_ip ip port r =
      let (made, lwip) = l.tcp_new_pcb r.lwip in
      let r1 = record r { lwip = lwip; pcb = made } in
      elim made [
        | none ↦ close l r1
        | some p ↦
            let (e, lwip') = l.tcp_connect (l.set_callbacks lwip p) p ip port in
            let r2 = record r1 { lwip = lwip'; active_self = true } in
            if is_ok e then r2 else close l r2
      ]

  -- The handler of resolve_domain_then_connect; a session that is gone is not called.
  unfoldable pub on_resolved : Err → Option l.Ip → ℕ → Relay l → Relay l
  unfolding close connect_ip
  on_resolved e ip port r = elim ip [
    | none ↦ close l r
    | some a ↦ if not (is_ok e) || r.closing then close l r else connect_ip a port r
  ]

  -- connect_target. parse_lwip_ip throws on a text that is no address, async_resolve as it likes.
  unfoldable pub connect_target : TargetAddress → Relay l → Relay l × Result (Unit {0})
  unfolding connect_ip
  connect_target t r =
      if is_domain t.type
      then (let (answer, lwip) = l.async_resolve r.lwip t.host in
          (record r { lwip = lwip }, answer))
      else elim (l.ipaddr_aton t.host) [
        | none ↦ (r, err bad_ip)
        | some ip ↦ (connect_ip ip t.port r, ok tt)
      ]

  -- `pending_lwip_.emplace_back`, if there is anything left of the chunk.
  abbrev pub queue_upstream : Bytes → Relay l → Relay l
  queue_upstream bytes r =
      if is_empty bytes then r else record r { pending_lwip = r.pending_lwip ++ bytes ∷ [] }

  -- A call that threw leaves the rest undone.
  abbrev pub then_queue : Bytes → Relay l × Result (Unit {0}) → Relay l × Result (Unit {0})
  then_queue bytes (r, ok u) = (queue_upstream bytes r, ok u)
  then_queue bytes (r, err e) = (r, err e)

  -- The first chunk, parsed.
  unfoldable pub process_target :
      Option TargetAddress → Bytes → Relay l → Relay l × Result (Unit {0})
  unfolding connect_target close
  process_target none bytes r = (close l r, ok tt)
  process_target (some t) bytes r =
      then_queue bytes (connect_target t (record r { got_target = true }))

  unfoldable pub process_decrypted_chunk : Bytes → Relay l → Relay l × Result (Unit {0})
  unfolding process_target
  process_decrypted_chunk chunk r =
      let (target, bytes) = parse_ss_address chunk in
      if r.got_target then (queue_upstream chunk r, ok tt) else process_target target bytes r
