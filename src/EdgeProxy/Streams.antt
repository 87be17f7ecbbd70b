-- ===== src/EdgeProxy/Streams.antt =====
-- The copying of the two streams of a connection: `proxyTCP` and `copyTCP`
-- (cmd/kiac-edge-proxy/main.go). The two goroutines and the function that waits for them take turns
-- in any order, which is a list of events.
pub mod Kept
pub mod HalfClose
use kiac.Base.{Bool, true, false, Option, none, some, List, [], ◌∷◌, ◌++◌}

-- Where a goroutine of `copyTCP` is: in `io.Copy`, after it, between the two calls of `done`, after
-- `done`, and once it has sent its result. The flag says that the copy failed.
pub data Copier : Type 0 where
  copying : Copier
  ended : Bool → Copier
  half_closed : Bool → Copier
  closed : Bool → Copier
  reported : Bool → Copier

-- A goroutine, and what its `done` has closed: the write side of the connection that it copies to,
-- and the read side of the one that it copies from.
pub record Goroutine : Type 0 where
  pub at : Copier
  pub write_closed : Bool
  pub read_closed : Bool

-- Where `proxyTCP` is: before the first `<-errc`, before the second, and at its end. The flag says
-- that the first result was an error.
pub data Waiting : Type 0 where
  for_first : Waiting
  for_second : Bool → Waiting
  returned : Bool → Waiting

-- `channel` is `errc`, whose buffer has room for both results; `deadlines` says that both
-- connections were given a deadline that is now.
pub record Streams : Type 0 where
  pub to_backend : Goroutine
  pub to_client : Goroutine
  pub channel : List Bool
  pub deadlines : Bool
  pub waiting : Waiting

abbrev pub start_copy : Goroutine
start_copy = record { at = copying; write_closed = false; read_closed = false }

abbrev pub start_streams : Streams
start_streams = record {
  to_backend = start_copy;
  to_client = start_copy;
  channel = [];
  deadlines = false;
  waiting = for_first;
}

pub data Direction : Type 0 where
  up : Direction
  down : Direction

-- What a goroutine does before it sends: `io.Copy` returns, and `done` calls `CloseWrite`, then
-- `CloseRead`.
pub data Action : Type 0 where
  copy_ends : Bool → Action
  close_write : Action
  close_read : Action

-- A goroutine acts, it sends its result, `proxyTCP` receives one.
pub data Event : Type 0 where
  act : Direction → Action → Event
  report : Direction → Event
  receive : Event

-- One action of a goroutine that is at a place; `none` where another comes first.
copy_tcp : Action → Copier → Goroutine → Option Goroutine
copy_tcp (copy_ends f) copying g = some (record g { at = ended f })
copy_tcp close_write (ended f) g = some (record g { at = half_closed f; write_closed = true })
copy_tcp close_read (half_closed f) g = some (record g { at = closed f; read_closed = true })
copy_tcp a c g = none

-- The result that a goroutine is about to send.
result : Copier → Option Bool
result copying = none
result (ended f) = none
result (half_closed f) = none
result (closed f) = some f
result (reported f) = none

set_up : Streams → Option Goroutine → Option Streams
set_up s none = none
set_up s (some g) = some (record s { to_backend = g })

set_down : Streams → Option Goroutine → Option Streams
set_down s none = none
set_down s (some g) = some (record s { to_client = g })

-- `errc <- err` of the goroutine that copies to the backend.
report_up : Streams → Option Bool → Option Streams
report_up s none = none
report_up s (some f) = some (record s {
  to_backend = record s.to_backend { at = reported f };
  channel = s.channel ++ f ∷ [];
})

-- `errc <- err` of the goroutine that copies to the client.
report_down : Streams → Option Bool → Option Streams
report_down s none = none
report_down s (some f) =
    some (record s {
      to_client = record s.to_client { at = reported f };
      channel = s.channel ++ f ∷ [];
    })

-- After the first result the deadlines are set if it is an error; the second is dropped.
received : Streams → Bool → List Bool → Waiting → Option Streams
received s f rest for_first =
    some (record s { channel = rest; deadlines = f; waiting = for_second f })
received s f rest (for_second g) = some (record s { channel = rest; waiting = returned g })
received s f rest (returned g) = none

take_result : Streams → List Bool → Option Streams
take_result s [] = none
take_result s (f ∷ rest) = received s f rest s.waiting

-- One event; `none` where it cannot happen.
unfoldable pub step : Event → Streams → Option Streams
unfolding copy_tcp result set_up set_down report_up report_down received take_result
step (act up a) s = set_up s (copy_tcp a s.to_backend.at s.to_backend)
step (act down a) s = set_down s (copy_tcp a s.to_client.at s.to_client)
step (report up) s = report_up s (result s.to_backend.at)
step (report down) s = report_down s (result s.to_client.at)
step receive s = take_result s s.channel

pub run_from : List Event → Option Streams → Option Streams
run_from es none = none
run_from [] (some s) = some s
run_from (e ∷ es) (some s) = run_from es (step e s)

unfoldable pub run : List Event → Option Streams
unfolding run_from
run es = run_from es (some start_streams)
