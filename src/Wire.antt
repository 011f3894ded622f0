-- ===== src/Wire.antt =====
-- im/common/frames.py and im/common/codec.py: what travels on a connection.
pub mod Value
pub mod Frame
pub mod LineBuffer
pub mod Codec
pub mod Tests
