-- ===== src/Wire.antt =====
-- What goes over a socket: the cipher, the loops that read and write, the frames, the first packet.
pub mod Rc4
pub mod Socket
pub mod Frame
pub mod Session
mod Tests
