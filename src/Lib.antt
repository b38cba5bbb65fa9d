-- ===== src/Lib.antt =====
-- ovpn2ss takes Shadowsocks connections on local ports and sends what they carry through an OpenVPN
-- tunnel, by a TCP/IP stack of its own (lwIP). This library models the parts below and proves what
-- makes them correct.
--
-- src/ShadowsocksAead.cpp, include/ovpn2ss/ShadowsocksAead.h: Aead/
--   Crypto: the calls of mbedTLS, as a parameter, with what its documentation promises
--   Key: evp_bytes_to_key
--   Nonce: increment_nonce
--   Session: the members of ShadowsocksAeadSession as a record, a function for each method; a method
--     returns the session that it leaves with its result, or the error that it throws
--   TcpChunk, UdpPacket, Stream, Reuse: theorems on these
-- parse_ss_address and encode_ss_address of the same file: Address, with the round trips in
--   Address/RoundTrip, and in Address/SameTarget for hosts in any text that Asio reads. What Asio reads
--   of an address is a parameter.
-- src/TcpRelaySession.cpp, include/ovpn2ss/TcpRelaySession.h: TcpRelay/
--   State: the members as a record, with the state of lwIP and what was asked of the client socket
--   Closing, Upstream, Reading, Downstream: a function for each method and each completion handler;
--     an event (a read, a write or a callback of lwIP that completes) is one call of such a function
--   Teardown, Order, Window, Backpressure, Segments, Connects, Reopening, Hazards: theorems on these
--   Events: a step for each event, and the sessions that are reached by steps
--   Opening: what a client makes of the answers, written apart from the code
--   Keeps, Sound, Delivery, Received, Written: the invariant of these sessions
--   Runs, Draining: what holds of every session that is reached
-- src/UdpRelaySession.cpp, include/ovpn2ss/UdpRelaySession.h: UdpRelay/
--   Stack: the calls of lwIP and of the sockets, as a parameter
--   State, Mappings, Sending: the members, and a function for each method and completion handler; the
--     state also counts the pcbs that were made and removed
--   Events: a step for each event, and the sessions that are reached by steps
--   Table, Accounting, Standing, Delivery: theorems on these
-- src/LwipRuntime.cpp, the DNS messages: Dns/
--   Packet, Query, Response: skip_dns_name, make_dns_query and parse_dns_response
--   InBounds, Guards, Names, Exchange: theorems on these
-- src/LwipRuntime.cpp, include/ovpn2ss/LwipRuntime.h, the rest: Runtime/
--   Net: the calls of lwIP, as a parameter
--   State, Config, Packets, Resolver: the members, and a function for each method and handler
--   Handlers, Events, Emitting: theorems on these, with a step for each event
-- src/MultiInstanceManager.cpp, include/ovpn2ss/MultiInstanceManager.h, InstanceConfig.h: Manager/
--   Json: the JSON library and the file system, as a parameter
--   Config: the configuration as records, and load_json_config with its helpers
--   Valid: a theorem on these
--   Instance: an instance with its LwipRuntime, OpenVpnClient and ShadowsocksInbound and the calls that
--     wait for its thread, a function for each of these calls, and start and stop of the manager
--   Events: a step for each event, and the instances that are reached by steps
--   Queue, Jobs, Running, Stopping: theorems on these
-- src/OpenVpnClient.cpp, include/ovpn2ss/OpenVpnClient.h: OpenVpn/
--   Client: the members and local variables of the connect loop, start, and a round of the loop
--   Reconnect: a theorem on these
--   Tunnel: the other members, with the tunnels in memory that the OpenVPN core has made, each known
--     by its number, and a function for each callback of the core and each method
--   Events: a step for each event, and the clients that are reached by steps
--   Scan: scan_ovpn_for_non_aead_cipher, with the matches of its regular expression
--   Lines, LineMatch, Accepted: the lines of a configuration file, and what the scan makes of one
--   Scanned, Started, Forwarding, Traced, Callbacks, Ordered, Quiet, Steady: theorems on these
-- src/OpenVpnTunBuilder.cpp, include/ovpn2ss/OpenVpnTunBuilder.h: OpenVpn/
--   TunBuilder: the collected configuration, over the model of LwipRuntime
--   Collected: what the calls of the core leave in it
-- src/ShadowsocksInbound.cpp, include/ovpn2ss/ShadowsocksInbound.h: Inbound/
--   Listeners: the members, and a function for each method and handler
--   Events: a step for each event, and the listeners that are reached by steps
--   Serving, Restart: theorems on these
-- Lwip: the calls of lwIP that the session makes, as a parameter: any functions of a state
-- Examples/: a small cipher, an address reader and a small lwIP, on which the code runs
-- Common/: lists of bytes, Boolean tests, and the errors that the program throws
--
-- The session takes its chunks from ShadowsocksAeadSession and its target from parse_ss_address,
-- and owns one pcb of lwIP. ShadowsocksInbound makes a session for each connection that it accepts
-- and keeps one UdpRelaySession. A packet of lwIP goes by LwipRuntime, OpenVpnTunBuilder and
-- OpenVpnClient to the tunnel of the OpenVPN core, and one of the core the same way back. Bytes are
-- numbers below 256; std::size_t and u16_t wrap where the code can make them wrap. The loop over
-- the chunks of a read runs on fuel, a round for each byte and one more, which is enough since a
-- chunk takes 34 bytes; the loop of tcp_recved runs on a round for each byte that is held back,
-- which is enough since a round takes one at least; the loop of evp_bytes_to_key runs on three
-- rounds, since two fill the key; the loop of make_dns_query runs on a round for each character of
-- the host and one more, since a label takes one at least. skip_dns_name ends by its own limit of
-- 255 jumps. The wait of the connect loop runs on a round for each millisecond, and a round takes
-- 200.
--
-- Each LwipRuntime, UdpRelaySession and TcpRelaySession has a state of lwIP of its own in the
-- model: what one of them does to lwIP is seen by another only as the answers and callbacks of
-- lwIP, which are any. The counter of the query ids is static in the source, so one for all
-- runtimes: each LwipRuntime of the model has its value in its state, and an event by which another
-- runtime has set it to any number.
--
-- Not modelled: the wait of MultiInstanceManager for the end of its threads, and main; locks,
-- logging, and the copies of other projects in third_party.
pub mod Common
pub mod Address
pub mod Aead
pub mod Dns
pub mod Examples
pub mod Inbound
pub mod Lwip
pub mod Manager
pub mod OpenVpn
pub mod Runtime
pub mod TcpRelay
pub mod UdpRelay
