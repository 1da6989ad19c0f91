-- ===== src/Http.antt =====
-- http/: a client connection, from the bytes received to the bytes sent.
pub mod Samples
pub mod Text
pub mod Line
pub mod Conn
pub mod Request
pub mod ProcessRead
pub mod DoRequest
pub mod Response
pub mod Send
pub mod Worker
pub mod LoadUsers
pub mod Epoll
