-- ===== src/Info.antt =====
-- cpp/src/marko/info.hpp: the host's name and address (Host), and what `SocketInfo` prints about a
-- descriptor (Report).
pub mod Host
pub mod Options
pub mod Report
pub mod Safety
pub mod Words
pub mod Values
pub mod Printed
