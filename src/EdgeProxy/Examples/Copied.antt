-- ===== src/EdgeProxy/Examples/Copied.antt =====
-- A request that ends cleanly, with an answer that fails after it.
use kiac.Base.{◌≡◌, refl, true, false, none, some, List, [], ◌∷◌, arith}
use kiac.EdgeProxy.Streams.{
  Event, Streams, act, close_read, close_write, closed, copy_ends, down, receive, report, reported,
  returned, run, start_streams, step, up,
}
use kiac.EdgeProxy.Streams.HalfClose.{run_moves, run_returned}

abbrev request_ends : List Event
request_ends = act up (copy_ends false) ∷ act up close_write ∷ act up close_read ∷ []

abbrev events : List Event
events =
    act up (copy_ends false)
    ∷ act up close_write
    ∷ act down (copy_ends true)
    ∷ act up close_read
    ∷ report up
    ∷ receive
    ∷ act down close_write
    ∷ act down close_read
    ∷ report down
    ∷ receive
    ∷ []

abbrev halfway : Streams
halfway = record start_streams {
  to_backend = record { at = closed false; write_closed = true; read_closed = true };
}

abbrev finished : Streams
finished = record {
  to_backend = record { at = reported false; write_closed = true; read_closed = true };
  to_client = record { at = reported true; write_closed = true; read_closed = true };
  channel = [];
  deadlines = false;
  waiting = returned false;
}

runs : run events ≡ some finished
unfolding run step
runs = refl

runs_halfway : run request_ends ≡ some halfway
unfolding run step
runs_halfway = refl

-- A result is not sent before the sides are closed.
not_yet : run (act up (copy_ends false) ∷ report up ∷ []) ≡ none
unfolding run step
not_yet = refl

run_returned_example :
    (true ≡ true) × (true ≡ true) × (true ≡ true) × (true ≡ true) × (false ≡ false)
run_returned_example = run_returned events finished false runs refl

run_moves_example : (e : Event) × (m : Streams) × (step e halfway ≡ some m)
run_moves_example = run_moves request_ends halfway runs_halfway (omega arith)
