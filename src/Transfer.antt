-- ===== src/Transfer.antt =====
-- The file transfer over sockets: the server ex5/srftp.cpp and the client ex5/clftp.cpp. The
-- definitions stand in Numbers, Client, Server, Main and Threads, and the other children prove what
-- they are named for.
pub mod Numbers
pub mod Decimal
pub mod Numerals
pub mod Client
pub mod Server
pub mod Chunks
pub mod Saving
pub mod Delivery
pub mod EndToEnd
pub mod Main
pub mod Threads
pub mod Arguments
pub mod Races
pub mod Descriptors
pub mod Serving
mod Tests
