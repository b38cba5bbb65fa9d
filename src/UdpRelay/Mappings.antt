-- ===== src/UdpRelay/Mappings.antt =====
-- The table of mappings: mapping_for, erase_mapping and the part of stop that empties it.
use ovpn2ss.Common.{ℕ, false, Option, none, some, Bytes, List, [], ◌∷◌, ◌++◌, if◌then◌else◌, same}
use ovpn2ss.Common.Outcome.{Result, ok, err, udp_new_failed}
use ovpn2ss.Address.{TargetAddress}
use ovpn2ss.UdpRelay.Stack.{Stack}
use ovpn2ss.UdpRelay.State.{Mapping, Relay, mapping_key}

module _ (u : Stack) where
  -- `mappings_.find(key)`.
  unfoldable pub find : Bytes → List (Mapping u) → Option (Mapping u)
  unfolding same
  find key [] = none
  find key (m ∷ ms) = if same m.key key then some m else find key ms

  -- The table without the mapping of that key.
  unfoldable pub without : Bytes → List (Mapping u) → List (Mapping u)
  unfolding same
  without key [] = []
  without key (m ∷ ms) = let rest = without key ms in if same m.key key then ms else m ∷ rest

  abbrev pub remove_pcb : ℕ → Relay u → Relay u
  remove_pcb p r = record r { lwip = u.udp_remove r.lwip p; removed = p ∷ r.removed }

  abbrev pub new_mapping : u.Endpoint → TargetAddress → ℕ → Mapping u
  new_mapping client target p = record {
    pcb = p;
    client = client;
    target = target;
    key = mapping_key u client target;
  }

  -- A new mapping is put into the table only if it has a pcb.
  unfoldable pub mapping_for : u.Endpoint → TargetAddress → Relay u → Relay u × Result (Mapping u)
  unfolding find mapping_key
  mapping_for client target r =
      let (fresh, lwip) = u.udp_new_pcb r.lwip in
      elim (find (mapping_key u client target) r.mappings) [
        | some m ↦ (r, ok m)
        | none ↦ elim fresh [
          | none ↦ (record r { lwip = lwip }, err udp_new_failed)
          | some p ↦ (
            record r {
              lwip = u.udp_recv lwip p;
              mappings = r.mappings ++ new_mapping client target p ∷ [];
              made = p ∷ r.made;
            },
            ok (new_mapping client target p),
          )
        ]
      ]

  -- arm_idle_timer, up to the start of the wait.
  abbrev pub arm_idle_timer : Mapping u → Relay u → Relay u
  arm_idle_timer m r = record r { timers = r.timers ++ m.key ∷ [] }

  unfoldable pub erase_mapping : Bytes → Relay u → Relay u
  unfolding find without
  erase_mapping key r = elim (find key r.mappings) [
    | none ↦ r
    | some m ↦ remove_pcb m.pcb (record r { mappings = without key r.mappings })
  ]

  -- The loop of stop.
  unfoldable pub remove_all : List (Mapping u) → Relay u → Relay u
  remove_all [] r = r
  remove_all (m ∷ ms) r = remove_all ms (remove_pcb m.pcb r)

  unfoldable pub stop : Relay u → Relay u
  unfolding remove_all
  stop r =
      let closed = record r { running = false; has_token = false; socket_open = false } in
      record (remove_all r.mappings closed) { mappings = [] }
