-- ===== src/Channel.antt =====
-- The data channel: src/packet/packet_handler.c and the part of src/proto/softether_protocol.c that
-- carries packets once a connection stands. A call of the library, of a socket or of the clock gives
-- what an argument says that it gives.
pub mod Stream
pub mod Inbox
pub mod Connection
pub mod Send
pub mod Receive
pub mod Packet
pub mod Ethernet
pub mod Calls
pub mod Links
pub mod Gateway
pub mod Data
pub mod Sound
