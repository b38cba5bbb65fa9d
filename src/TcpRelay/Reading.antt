-- ===== src/TcpRelay/Reading.antt =====
-- The completions of the reads from the client: the salt, then the encrypted stream.
use ovpn2ss.Common.{
  ℕ, zero, suc, ◌-◌, not, Option, none, some, Bytes, ◌++◌, ◌==◌, if◌then◌else◌, length,
}
use ovpn2ss.Common.Outcome.{Result, ok, err}
use ovpn2ss.Aead.Crypto.{Crypto}
use ovpn2ss.Aead.Session.{set_client_salt, decrypt_tcp_chunk}
use ovpn2ss.Lwip.{Lwip}
use ovpn2ss.TcpRelay.State.{Relay}
use ovpn2ss.TcpRelay.Closing.{close, handle_client_eof}
use ovpn2ss.TcpRelay.Upstream.{read_encrypted_stream, process_decrypted_chunk, flush_to_lwip}

-- How a read completes: with bytes, by eof or connection_reset, or with another error.
pub data ReadEnd : Type 0 where
  gave : Bytes → ReadEnd
  ended failed : ReadEnd

module _ (c : Crypto) (l : Lwip) where
  -- The completion of the read that read_salt starts.
  unfoldable pub on_salt : Option Bytes → Relay l → Relay l
  unfolding close read_encrypted_stream
  on_salt none r = close l r
  on_salt (some salt) r =
      let (s, answer) = set_client_salt c salt r.crypto in
      let r1 = record r { crypto = s } in
      elim answer [ ok u ↦ read_encrypted_stream l r1 | err e ↦ close l r1 ]

  -- The loop over the chunks on fuel; `none` means that the fuel ran out. It ends with the view that
  -- is left, or by the error that a call threw.
  unfoldable pub read_loop : ℕ → Bytes → Relay l → Option (Relay l × Result Bytes)
  read_loop zero view r = none
  read_loop (suc fuel) view r =
      let (s, answer) = decrypt_tcp_chunk c view r.crypto in
      let r1 = record r { crypto = s } in
      elim answer [
        | err e ↦ some (r1, err e)
        | ok found ↦ elim found [
          | none ↦ some (r1, ok view)
          | some (chunk, rest) ↦
              let (r2, done) = process_decrypted_chunk l chunk r1 in
              elim done [ err e ↦ some (r2, err e) | ok u ↦ read_loop fuel rest r2 ]
        ]
      ]

  -- Behind the loop. `consumed` is 0 exactly if no chunk was taken.
  unfoldable pub after_loop : Relay l × Result Bytes → Relay l
  unfolding close read_encrypted_stream flush_to_lwip
  after_loop (r, err e) = close l r
  after_loop (r, ok rest) =
      let consumed = length r.encrypted_in - length rest in
      let r1 = if not (consumed == 0) then record r { encrypted_in = rest } else r in
      read_encrypted_stream l (flush_to_lwip l r1)

  -- The completion of a read of the stream. A chunk takes 34 bytes at least, so a round for each
  -- byte, and one to find that nothing is left, are enough.
  unfoldable pub on_read : ReadEnd → Relay l → Option (Relay l)
  unfolding handle_client_eof close read_loop after_loop
  on_read (gave bytes) r =
      let view = r.encrypted_in ++ bytes in
      elim (read_loop (suc (length view)) view
        (record r { encrypted_in = view; reads = r.reads - 1 })) [
          | none ↦ none
          | some end ↦ some (after_loop end)
        ]
  on_read ended r = some (handle_client_eof l (record r { reads = r.reads - 1 }))
  on_read failed r = some (close l (record r { reads = r.reads - 1 }))
