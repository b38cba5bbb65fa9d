-- ===== src/Examples/Toy.antt =====
-- A small cipher with which mbedTLS's promises hold: the key and the nonce are in the tag. And a
-- small lwIP, whose state is its free send buffer in bytes.
use ovpn2ss.Common.{
  ℕ, Bool, ◌||◌, ◌==◌, ◌+◌, true, false, [], ◌∷◌, ◌-◌, ◌≡◌, none, some, Bytes, ◌++◌, length, take,
  replicate, arith, length-take, length-append, length-replicate, same, same_sound, same_self,
  if◌then◌else◌, ltb,
}
use ovpn2ss.Common.Outcome.{ok}
use ovpn2ss.Aead.Crypto.{Crypto, IsCrypto}
use ovpn2ss.UdpRelay.Stack.{Stack}
use ovpn2ss.Runtime.Net.{Net}
use ovpn2ss.Lwip.{Lwip, err_ok, err_mem, established}

abbrev pad : ℕ → Bytes → Bytes
pad n bytes = take n (bytes ++ replicate n 0)

abbrev tag_of : Bytes → Bytes → Bytes
tag_of key nonce = pad 16 (take 4 key ++ nonce)

abbrev pub toy : Crypto
toy = record {
  md5 = λ text. pad 16 text;
  hkdf_sha1 = λ salt key info n. some (pad n (take 2 salt ++ take 2 key));
  encrypt_and_tag = λ key nonce plain. some (plain, tag_of key nonce);
  auth_decrypt = λ key nonce tag cipher. if same tag (tag_of key nonce) then some cipher else none;
}

length-pad : (n : ℕ) (bytes : Bytes) → length (pad n bytes) ≡ n
length-pad n bytes = omega (
  arith,
  length-take n (bytes ++ replicate n 0),
  length-append bytes (replicate n 0),
  length-replicate {A = ℕ} n 0,
)

pub toy-IsCrypto : IsCrypto toy
toy-IsCrypto = record {
  length-md5 = λ text. length-pad 16 text;
  length-encrypt = λ key nonce plain cipher tag e. ground arith;
  length-tag = λ key nonce plain cipher tag e. ground (arith, length-pad 16 (take 4 key ++ nonce));
  decrypt-encrypt = λ key nonce plain cipher tag e.
      ground (arith, same_sound tag (tag_of key nonce), same_self (tag_of key nonce));
}

-- Pcbs have the number 7, and every address is its text.
abbrev pub toy_lwip : Lwip
toy_lwip = record {
  State = ℕ;
  Ip = Bytes;
  ipaddr_aton = λ host. some host;
  tcp_new_pcb = λ s. (some 7, s);
  async_resolve = λ s host. (ok tt, s);
  set_callbacks = λ s p. s;
  clear_callbacks = λ s p. s;
  tcp_connect = λ s p ip port. (err_ok, s);
  tcp_sndbuf = λ s p. s;
  tcp_sndqueuelen = λ s p. 0;
  tcp_state = λ s p. established;
  tcp_write =
      λ s p bytes. if ltb s (length bytes) then (err_mem, s) else (err_ok, s - length bytes);
  tcp_output = λ s p. s;
  tcp_recved = λ s p n. s;
  tcp_shutdown_tx = λ s p. (err_ok, s);
  tcp_close = λ s p. (err_ok, s);
  tcp_abort = λ s p. s;
}

abbrev has_colon : Bytes → Bool
has_colon [] = false
has_colon (c ∷ cs) = c == b':' || has_colon cs

-- Pcbs are numbered in order; the state is the number of the next one.
abbrev pub toy_stack : Stack
toy_stack = record {
  State = ℕ;
  Ip = Bytes;
  Endpoint = Bytes × ℕ;
  address_text = λ e. e.0;
  port = λ e. e.1;
  ipaddr_aton = λ host. some host;
  ipaddr_ntoa = λ ip. ip;
  is_v6 = λ ip. has_colon ip;
  udp_new_pcb = λ s. (some s, s + 1);
  async_resolve = λ s host. (ok tt, s);
  udp_recv = λ s p. s;
  udp_remove = λ s p. s;
  pbuf_alloc = λ s n. (true, s);
  udp_sendto = λ s p bytes ip port. s;
}

-- No name is an address, and texts are: they begin with a digit.
abbrev pub toy_net : Net
toy_net = record {
  State = ℕ;
  Ip = Bytes;
  ipaddr_aton = λ text. elim text [ [] ↦ none | x ∷ xs ↦ if ltb x 58 then some (x ∷ xs) else none ];
  is_v6 = λ ip. false;
  of_answer = λ answer. [];
  netif_set_mtu = λ s mtu. s;
  netif_ip6_addr_set = λ s ip. s;
  netif_set_addr = λ s ip mask gateway. s;
  sys_check_timeouts = λ s. (ok tt, s);
  pbuf_alloc = λ s n. (true, s);
  input = λ s bytes. (err_ok, s);
  udp_new = λ s. (some s, s + 1);
  udp_recv = λ s p. s;
  udp_remove = λ s p. s;
  udp_sendto = λ s p bytes ip. (err_ok, s);
}
