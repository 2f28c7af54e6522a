-- ===== src/Bluetooth.antt =====
-- The crate desktop/bluetooth: the stream over a connection.
pub mod Stream
pub mod Order
