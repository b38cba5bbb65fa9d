-- ===== src/Runtime/Packets.antt =====
-- The packets that go into lwIP and come out of it, and the timer that drives it.
use ovpn2ss.Common.{
  ℕ, ◌^◌, ◌%◌, Bool, true, false, not, ◌||◌, Bytes, List, [], ◌∷◌, ◌++◌, if◌then◌else◌, is_empty,
  length, take,
}
use ovpn2ss.Common.Outcome.{Result, ok, err}
use ovpn2ss.Lwip.{Err, err_ok, err_rte, err_buf}
use ovpn2ss.Runtime.Net.{Net}
use ovpn2ss.Runtime.State.{Runtime, Query}

module _ (n : Net) where
  unfoldable pub start : Runtime n → Runtime n
  start r = if r.running then r else record r { running = true }

  -- udp_remove for each query of the table.
  abbrev pub remove_all : List Query → n.State → n.State
  remove_all [] lwip = lwip
  remove_all (q ∷ qs) lwip = remove_all qs (n.udp_remove lwip q.pcb)

  abbrev pub handlers : List Query → List ℕ
  handlers [] = []
  handlers (q ∷ qs) = q.handler ∷ handlers qs

  -- The queries are destroyed with their handlers.
  unfoldable pub stop : Runtime n → Runtime n
  stop r = record r {
    running = false;
    has_token = false;
    lwip = remove_all r.dns_queries r.lwip;
    dns_queries = [];
    dropped = handlers r.dns_queries ++ r.dropped;
  }

  -- What the timeouts throw is thrown again once all is stopped.
  unfoldable pub poll_timeouts : Runtime n → Runtime n × Result (Unit {0})
  unfolding stop
  poll_timeouts r =
      let (answer, lwip) = n.sys_check_timeouts r.lwip in
      elim answer [
        | ok done ↦ (record r { lwip = lwip }, ok done)
        | err e ↦ (stop (record r { lwip = lwip }), err e)
      ]

  -- The handler of arm_timer; `failed` is its error code.
  unfoldable pub on_timer : Bool → Runtime n → Runtime n × Result (Unit {0})
  unfolding poll_timeouts
  on_timer failed r = if failed || not r.running then (r, ok tt) else poll_timeouts r

  -- The size is cut to a u16_t.
  unfoldable pub inject_l3_packet : Bytes → Runtime n → Runtime n
  inject_l3_packet packet r =
      let (room, lwip) = n.pbuf_alloc r.lwip (length packet % 2 ^ 16) in
      let (e, lwip') = n.input lwip (take (length packet % 2 ^ 16) packet) in
      if is_empty packet
      then r
      else if room
      then record r { lwip = lwip' }
      else record r { lwip = lwip }

  -- The call that post_inject_l3_packet posts; `token` is whether the token that it keeps is there
  -- and set.
  unfoldable pub on_injected : Bool → Bytes → Runtime n → Runtime n
  unfolding inject_l3_packet
  on_injected token packet r = if not token || not r.running then r else inject_l3_packet packet r

  -- emit_packet, for a packet that pbuf_copy_partial copies whole, or not.
  unfoldable pub emit_packet : Bool → Bytes → Runtime n → Runtime n × Err
  emit_packet whole packet r =
      if not r.has_output
      then (r, err_rte)
      else if not whole
      then (r, err_buf)
      else (record r { emitted = r.emitted ++ packet ∷ [] }, err_ok)
