-- ===== src/Lib.antt =====
-- The native core of the SoftEther VPN client for Android, src/main/cpp/softether-core. A
-- connection exchanges PACK messages with the server, may go through the R-UDP transport where TCP
-- is blocked, which the NAT-T client finds a peer for, gets its address by DHCP through the
-- tunnel, and then carries Ethernet frames in blocks over TCP or as datagrams over the UDP
-- acceleration.
--
-- The parts, by the files under src/main/cpp/softether-core that they are about:
--   Bytes, Pack   src/proto/softether_pack.c and include/softether_pack.h. Pack/Element says what
--     a PACK is as data; Pack/Writer is the buffer and the calls that build one, Pack/Reader the
--     getters over bytes from anywhere. Pack/Reserve and Pack/Write are about the writer,
--     Pack/Read about the readers.
--   Rudp   src/proto/rudp_transport.c. Rudp/Fifo is `rt_fifo_t`, Rudp/Session is `rt_session_t`
--     with the functions of the worker thread, those that the clock drives in Rudp/Session/Clock,
--     and Rudp/Packet is `rt_handle_udp_packet`. Rudp/Send is `rt_send_segment_now`, what it
--     writes and how it is read at the other end, and Rudp/Interrupt is `rt_interrupt` as one
--     step, in plain UDP mode. Rudp/Framing is the DNS and ICMP framings of `rt_send_udp` and
--     `rt_worker`.
--   Accel   src/proto/softether_rudp.c and include/softether_rudp.h, the UDP acceleration:
--     Accel/Context is `rudp_context_t` with its receive queue, Accel/Init the creation and
--     initialisation, Accel/Window the send window and `rudp_is_send_ready`, Accel/Send and
--     Accel/Receive the packets, Accel/Poll `rudp_poll`. Accel/Sound is about all calls together,
--     Accel/Exchange about two ends.
--   Crypto   `rc4_crypt` of src/crypto/aes_wrapper.c, which both transports use.
--   Dhcp   src/net/dhcp_client.c: Dhcp/Parse and Dhcp/Bounds are the parser, Dhcp/Build the frames
--     that the client sends, Dhcp/Exchange the waits and the attempts.
--   NatT   src/proto/softether_nat_t.c: NatT/Response is the parser of answers and the relay's
--     hostname, NatT/Connect the loop of `nat_t_connect`. It uses Pack for what it sends and
--     reads.
--   Channel   src/packet/packet_handler.c and the packet calls of src/proto/softether_protocol.c,
--     over the fields of include/softether_protocol.h in Channel/Connection. Channel/Stream is the
--     loops that read and write whole buffers, Channel/Inbox the receive queue and the reading of
--     one message into it, Channel/Send the choice of the socket, the failover and the keepalives,
--     Channel/Receive `softether_fill_recv_queue`, Channel/Ethernet the Ethernet frames, ARP and
--     the taking of packets, Channel/Packet `softether_receive_packet`, which reads a message
--     without the queue, Channel/Data `softether_receive_data`, Channel/Gateway the resolving of
--     the gateway, Channel/Links how sockets come and go, Channel/Calls the calls as a whole, and Channel/Sound is about all of
--     them together. It uses Accel for what goes by UDP.
-- Base holds what they share; Tests holds runs on concrete inputs.
--
-- A definition has the name of the C function without its prefix (`rt_`, `rudp_`, `nat_t_`,
-- `softether_`, `_safe`). Bytes, sizes and ticks are ℕ; where C wraps around, u8, u16, u32 and u64
-- of Base/Words do. Memory is a list of bytes with an explicit position, a write or a read outside
-- of it is `none` (`fault` for a call of the writer), and an array with a count is a list whose
-- length is the count. A function that changes a structure returns the new one.
--
-- Loops over arrays, bytes and options recurse on them or on fuel: `grow` on 33, one more than the
-- doublings from 1 to 2 ^ 32; `segment_send_fifo` on one more than the bytes that wait, since each
-- round takes one at least; `options_loop` on one more than the bytes of the DHCP message, since
-- each round takes one at least. The loop of `nat_t_connect` runs over the rounds that its
-- environment gives, and so do the wait for a DHCP answer, over rounds, the receive loop of
-- `rudp_poll`, over the datagrams that are there, and the drawing of cookies, over the draws. The
-- loop that skips a block recurses on 1,251, one more than the pieces of the largest block, the
-- loops that read on what comes in, a batch on the number of frames that wait, and the wait for
-- an ARP answer on its 3 attempts of 40 looks.
--
-- malloc and realloc are a parameter of the writer (`Memory`, with the promises `IsMemory`);
-- SHA-1, ChaCha20-Poly1305 and zlib are parameters of the transports and of the data channel
-- (`IsAead` says what the cipher promises about sizes, and SHA-1 gives 20 bytes), RC4 is one of
-- the packet handler of the R-UDP transport, `inet_pton` of the NAT-T parser, and the hash of the
-- relay's hostname of `build_hostname`: each stands for any function. Random numbers and the clock
-- are arguments, and so is what the calls of the sockets and of TLS give: bytes in pieces, writes
-- that take a part, errors.
--
-- Not modelled: the sockets themselves, the threads, their locks, and TLS; the key derivation of
-- the R-UDP transport; of the driver in softether_protocol.c the exchanges that set a session up,
-- the race of the transports, the exchange that connects an additional socket and the
-- reconnecting; AES, SHA,
-- HMAC and zlib, which are calls of libraries; the JNI bridge and the Kotlin code.
-- packet/serializer.c is not part of the build.
pub mod Base
pub mod Bytes
pub mod Pack
pub mod Crypto
pub mod Rudp
pub mod Dhcp
pub mod Accel
pub mod NatT
pub mod Channel
mod Tests
