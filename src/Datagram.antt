-- ===== src/Datagram.antt =====
-- The datagram sockets of cpp/src/marko: the interface that the class templates use (Class), the
-- two classes that meet it (Udp, Unix), and the broadcasting socket (Broadcast).
pub mod Class
pub mod Udp
pub mod Unix
pub mod Broadcast
pub mod Receive
pub mod Naming
pub mod Lifetime
pub mod Defined
pub mod Network
pub mod Tidy
pub mod Casting
pub mod SetUp
