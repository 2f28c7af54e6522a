-- ===== src/Tests/Streams.antt =====
-- An example of desktop/bluetooth/src/stream.rs.
use bit_drive.Prelude.{◌≡◌, [], ◌∷◌, ◌++◌}
use bit_drive.Bluetooth.Stream.{RfcommStream, from_socket, arrives, load_fails}
use bit_drive.Bluetooth.Order.{poll_all, ahead, poll_all-ahead}

abbrev connected : RfcommStream
connected =
    from_socket (arrives (1 ∷ 2 ∷ 3 ∷ []) ∷ load_fails "reset" ∷ arrives (4 ∷ []) ∷ arrives [] ∷ [])

poll_all-ahead_example :
    (poll_all connected (2 ∷ 2 ∷ 5 ∷ 5 ∷ [])).1 ++ ahead (poll_all connected (2 ∷ 2 ∷ 5 ∷ 5 ∷ [])).0
    ≡ ahead connected
poll_all-ahead_example = poll_all-ahead connected (2 ∷ 2 ∷ 5 ∷ 5 ∷ [])
