-- ===== src/Aead.antt =====
-- src/ShadowsocksAead.cpp and include/ovpn2ss/ShadowsocksAead.h: the AEAD session of Shadowsocks
-- over the primitives of mbedTLS, which are a parameter (Crypto).
pub mod Crypto
pub mod Key
pub mod Nonce
pub mod Session
pub mod TcpChunk
pub mod UdpPacket
pub mod Stream
pub mod Reuse
