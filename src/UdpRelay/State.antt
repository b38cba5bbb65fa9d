-- ===== src/UdpRelay/State.antt =====
-- The members of UdpRelaySession and Mapping, and the keys of the mappings.
use ovpn2ss.Common.{
  ℕ, zero, suc, ◌+◌, ◌/◌, ◌%◌, Bool, true, false, Bytes, List, [], ◌∷◌, ◌++◌, ltb, if◌then◌else◌,
}
use ovpn2ss.Address.{TargetAddress}
use ovpn2ss.UdpRelay.Stack.{Stack}

-- A number below 100000 as `<<` writes it.
abbrev digits : ℕ → ℕ → Bytes
digits zero n = []
digits (suc fuel) n =
    let more = digits fuel (n / 10) in
    if ltb n 10 then (b'0' + n) ∷ [] else more ++ (b'0' + n % 10) ∷ []

abbrev pub decimal : ℕ → Bytes
decimal n = digits 5 n

module _ (u : Stack) where
  unfoldable pub mapping_key : u.Endpoint → TargetAddress → Bytes
  mapping_key client t =
      u.address_text client
      ++ (b':' ∷ (decimal (u.port client) ++ (b'|' ∷ (t.host ++ (b':' ∷ decimal t.port)))))

  -- The pcb of a mapping is not null: it is set before the mapping is put into the table, and reset
  -- only where the mapping is taken out.
  pub record Mapping : Type 0 where
    pub pcb : ℕ
    pub client : u.Endpoint
    pub target : TargetAddress
    pub key : Bytes

  -- The last six fields are no members: the state of lwIP, whether the socket is open, the receives
  -- that were started, the datagrams given to async_send_to, the keys whose idle timer was started,
  -- in order, and all pcbs that were made and that were removed.
  pub record Relay : Type 0 where
    pub master_key : Bytes
    pub mappings : List Mapping
    pub has_token : Bool
    pub running : Bool
    pub lwip : u.State
    pub socket_open : Bool
    pub receives : ℕ
    pub sent : List (u.Endpoint × Bytes)
    pub timers : List Bytes
    pub made : List ℕ
    pub removed : List ℕ

  -- The constructor.
  abbrev pub init : Bytes → u.State → Relay
  init master_key lwip = record {
    master_key = master_key;
    mappings = [];
    has_token = true;
    running = false;
    lwip = lwip;
    socket_open = true;
    receives = 0;
    sent = [];
    timers = [];
    made = [];
    removed = [];
  }
