-- ===== src/Chunks.antt =====
-- lab08/lab: a file sent over UDP in numbered chunks, each one repeated until it is confirmed.
-- The server is l8-1_server.c, the client is l8-1_client.c.
pub mod Frame
pub mod Server
pub mod Table
pub mod Serve
pub mod Client
pub mod Transfer
mod Tests
