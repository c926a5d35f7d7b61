-- ===== src/Serial.antt =====
-- src/plugins/serial/serial_basic.c, the basic mode of the serial interface: byte stuffing
-- (Frame), the receiving state machine (Parse), the receive buffer (Receive), the IPMB messages
-- with bridging (Message) and the matching of responses (Response). Terminal is
-- serial_terminal.c.
pub mod Frame
pub mod Parse
pub mod ParseLaws
pub mod RoundTrip
pub mod Message
pub mod MessageLaws
pub mod Response
pub mod ResponseLaws
pub mod Receive
pub mod ParseMore
pub mod ReceiveLaws
pub mod Overrun
pub mod Setup
pub mod Terminal
