-- ===== src/Lanplus.antt =====
-- src/plugins/lanplus: the RMCP+ interface of IPMI v2.0. The cryptographic functions of OpenSSL
-- are a parameter (Crypto); payload encryption (Encrypt), packets as they are sent (Packet) and
-- read (Read), serial over LAN (Sol), the cipher suites (Ciphers), and
-- the exchange that opens a session (Open).
pub mod Crypto
pub mod Encrypt
pub mod Session
pub mod Packet
pub mod Read
pub mod Authcode
pub mod Delivery
pub mod Sol
pub mod Ciphers
pub mod Request
pub mod Entries
pub mod Rakp
pub mod Sizes
pub mod PacketLaws
pub mod Open
