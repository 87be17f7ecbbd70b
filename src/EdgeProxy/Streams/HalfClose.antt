-- ===== src/EdgeProxy/Streams/HalfClose.antt =====
-- What holds of the streams whatever the order of the events.
use kiac.Base.{
  length, ℕ, ◌+◌, ◌≤◌, ◌<◌, ◌≡◌, refl, sym, ap, ◌∙◌, ◌⊎◌, inl, inr, Bool, true, false, Option, none,
  some, List, [], ◌∷◌, arith, subst,
}
use kiac.EdgeProxy.Streams.{
  received, result, take_result, report_up, report_down, copy_tcp, set_down, set_up, Copier,
  Streams, Waiting, copying, ended, half_closed, closed, for_first, for_second, returned, reported,
  Event, Goroutine, act, close_read, close_write, copy_ends, down, receive, report, run, run_from,
  start_streams, step, up,
}
use kiac.EdgeProxy.Streams.Kept.{
  InStep, IsKept, first_failed, is_read_closed, is_write_closed, received_count, reports,
  step-IsKept,
}

run_from-none : (es : List Event) → run_from es none ≡ none
unfolding run_from
run_from-none [] = refl
run_from-none (e ∷ es) = refl

run_from-IsKept :
    (es : List Event) (s m : Streams) → IsKept s → run_from es (some s) ≡ some m → IsKept m
unfolding run_from
run_from-IsKept [] s m k h = let same : ◌≡◌ {A = Streams} s m = cc in subst IsKept same k
run_from-IsKept (e ∷ es) s m k h = go (step e s) refl h (λ s' k' q. run_from-IsKept es s' m k' q)
  where
    go :
        (o : Option Streams)
        → step e s ≡ o
        → run_from es o ≡ some m
        → ((s' : Streams) → IsKept s' → run_from es (some s') ≡ some m → IsKept m)
        → IsKept m
    go none p q rec = absurd (cc (run_from-none es, q))
    go (some s') p q rec = rec s' (step-IsKept e s s' k p) q

pub run-IsKept : (es : List Event) (s : Streams) → run es ≡ some s → IsKept s
unfolding run
run-IsKept es s h =
    run_from-IsKept es start_streams s
      (record {
        to_backend = (refl, refl);
        to_client = (refl, refl);
        counted = refl;
        forced = refl;
      })
      h

-- A goroutine that has sent its result has closed both sides.
sent-closed :
    (g : Goroutine) → InStep g → 1 ≤ reports g.at → (g.write_closed ≡ true) × (g.read_closed ≡ true)
sent-closed g (w, r) h = go g.at refl h
  where
    go : (c : Copier) → g.at ≡ c → 1 ≤ reports c → (g.write_closed ≡ true) × (g.read_closed ≡ true)
    go copying e h = absurd (omega arith)
    go (ended f) e h = absurd (omega arith)
    go (half_closed f) e h = absurd (omega arith)
    go (closed f) e h = absurd (omega arith)
    go (reported f) e h = (w ∙ ap is_write_closed e, r ∙ ap is_read_closed e)

reports-bounded : (c : Copier) → reports c ≤ 1
reports-bounded copying = omega arith
reports-bounded (ended f) = omega arith
reports-bounded (half_closed f) = omega arith
reports-bounded (closed f) = omega arith
reports-bounded (reported f) = omega arith

-- When `proxyTCP` has returned after any run of the two goroutines, both have closed both of their
-- sides, and the deadlines were set exactly if the first result was an error.
pub run_returned :
    (es : List Event) (s : Streams) (f : Bool)
    → run es ≡ some s
    → s.waiting ≡ returned f
    → (s.to_backend.write_closed ≡ true)
      × (s.to_backend.read_closed ≡ true)
      × (s.to_client.write_closed ≡ true)
      × (s.to_client.read_closed ≡ true)
      × (s.deadlines ≡ f)
run_returned es s f h w =
    let k = run-IsKept es s h in
    let all = sym k.counted ∙ ap (λ (x : Waiting). length s.channel + received_count x) w in
    let one = reports-bounded s.to_backend.at in
    let two = reports-bounded s.to_client.at in
    let (a, b) = sent-closed s.to_backend k.to_backend (omega arith) in
    let (c, d) = sent-closed s.to_client k.to_client (omega arith) in
    (a, b, c, d, k.forced ∙ ap first_failed w)

-- A goroutine that has not sent its result can go on.
up_moves :
    (s : Streams) (c : Copier)
    → s.to_backend.at ≡ c
    → reports c ≡ 0
    → (e : Event) × (m : Streams) × (step e s ≡ some m)
unfolding step set_up copy_tcp report_up result
up_moves s copying e h = (
  act up (copy_ends false),
  _,
  ap (λ (x : Copier). set_up s (copy_tcp (copy_ends false) x s.to_backend)) e,
)
up_moves s (ended f) e h =
    (act up close_write, _, ap (λ (x : Copier). set_up s (copy_tcp close_write x s.to_backend)) e)
up_moves s (half_closed f) e h =
    (act up close_read, _, ap (λ (x : Copier). set_up s (copy_tcp close_read x s.to_backend)) e)
up_moves s (closed f) e h = (report up, _, ap (λ (x : Copier). report_up s (result x)) e)
up_moves s (reported f) e h = absurd (omega arith)

down_moves :
    (s : Streams) (c : Copier)
    → s.to_client.at ≡ c
    → reports c ≡ 0
    → (e : Event) × (m : Streams) × (step e s ≡ some m)
unfolding step set_down copy_tcp report_down result
down_moves s copying e h = (
  act down (copy_ends false),
  _,
  ap (λ (x : Copier). set_down s (copy_tcp (copy_ends false) x s.to_client)) e,
)
down_moves s (ended f) e h = (
  act down close_write,
  _,
  ap (λ (x : Copier). set_down s (copy_tcp close_write x s.to_client)) e,
)
down_moves s (half_closed f) e h =
    (act down close_read, _, ap (λ (x : Copier). set_down s (copy_tcp close_read x s.to_client)) e)
down_moves s (closed f) e h = (report down, _, ap (λ (x : Copier). report_down s (result x)) e)
down_moves s (reported f) e h = absurd (omega arith)

-- A result that is there can be received.
result_moves :
    (s : Streams) (f : Bool) (rest : List Bool) (w : Waiting)
    → s.channel ≡ f ∷ rest
    → s.waiting ≡ w
    → received_count w < 2
    → (e : Event) × (m : Streams) × (step e s ≡ some m)
unfolding step take_result received
result_moves s f rest for_first e q h =
    (receive, _, ap (take_result s) e ∙ ap (received s f rest) q)
result_moves s f rest (for_second g) e q h =
    (receive, _, ap (take_result s) e ∙ ap (received s f rest) q)
result_moves s f rest (returned g) e q h = absurd (omega arith)

-- After any run in which `proxyTCP` has not received both results, some event can happen: a copy
-- ends, a goroutine closes a side or sends its result, or a result is received.
pub run_moves :
    (es : List Event) (s : Streams)
    → run es ≡ some s
    → received_count s.waiting < 2
    → (e : Event) × (m : Streams) × (step e s ≡ some m)
run_moves es s h w = go s.channel refl (run-IsKept es s h)
  where
    sent : (n : ℕ) → n ≤ 1 → (n ≡ 0) ⊎ (n ≡ 1)
    sent n l = omega arith

    one_idle :
        reports s.to_backend.at + reports s.to_client.at < 2
        → (e : Event) × (m : Streams) × (step e s ≡ some m)
    one_idle l =
        let small = reports-bounded s.to_client.at in
        elim (sent (reports s.to_backend.at) (reports-bounded s.to_backend.at)) [
          | inl idle ↦ up_moves s s.to_backend.at refl idle
          | inr done ↦ down_moves s s.to_client.at refl (omega arith)
        ]

    go :
        (ch : List Bool)
        → s.channel ≡ ch
        → IsKept s
        → (e : Event) × (m : Streams) × (step e s ≡ some m)
    go (f ∷ rest) p k = result_moves s f rest s.waiting p refl w
    go [] p k =
        let all = sym k.counted ∙ ap (λ (xs : List Bool). length xs + received_count s.waiting) p in
        one_idle (omega arith)
