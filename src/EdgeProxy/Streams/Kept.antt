-- ===== src/EdgeProxy/Streams/Kept.antt =====
-- What each event of the streams keeps.
use kiac.Base.{
  length, ℕ, suc, ◌+◌, ◌≡◌, refl, sym, ap, ◌∙◌, Bool, true, false, Option, none, some, List, [],
  ◌∷◌, ◌++◌, arith, subst,
}
use kiac.EdgeProxy.Streams.{
  Action, Copier, Event, Goroutine, Streams, Waiting, act, close_read, close_write, closed,
  copy_ends, copy_tcp, copying, down, ended, for_first, for_second, half_closed, receive, received,
  report, report_down, report_up, reported, result, returned, set_down, set_up, step, take_result,
  up,
}

-- What a goroutine has done at a place: the first call of `done`, the second, and the results sent.
abbrev pub is_write_closed : Copier → Bool
is_write_closed copying = false
is_write_closed (ended f) = false
is_write_closed (half_closed f) = true
is_write_closed (closed f) = true
is_write_closed (reported f) = true

abbrev pub is_read_closed : Copier → Bool
is_read_closed copying = false
is_read_closed (ended f) = false
is_read_closed (half_closed f) = false
is_read_closed (closed f) = true
is_read_closed (reported f) = true

abbrev pub reports : Copier → ℕ
reports copying = 0
reports (ended f) = 0
reports (half_closed f) = 0
reports (closed f) = 0
reports (reported f) = 1

abbrev pub received_count : Waiting → ℕ
received_count for_first = 0
received_count (for_second f) = 1
received_count (returned f) = 2

abbrev pub first_failed : Waiting → Bool
first_failed for_first = false
first_failed (for_second f) = f
first_failed (returned f) = f

-- A side is closed exactly if its goroutine has called what closes it.
abbrev pub InStep : Goroutine → Type 0
InStep g = (g.write_closed ≡ is_write_closed g.at) × (g.read_closed ≡ is_read_closed g.at)

-- The goroutines are in step, no result is lost, and the deadlines are set exactly by a first result
-- that is an error.
pub record IsKept (s : Streams) : Type 0 where
  pub to_backend : InStep s.to_backend
  pub to_client : InStep s.to_client
  pub counted :
      length s.channel + received_count s.waiting ≡ reports s.to_backend.at + reports s.to_client.at
  pub forced : s.deadlines ≡ first_failed s.waiting

length_snoc : (f : Bool) (xs : List Bool) → length (xs ++ f ∷ []) ≡ suc (length xs)
length_snoc f [] = refl
length_snoc f (x ∷ xs) = ap suc (length_snoc f xs)

-- What an action makes of a goroutine: it is in step, and nothing is sent.
Goes : Goroutine → Goroutine → Type 0
Goes g h =
    (h.write_closed ≡ is_write_closed h.at)
    × (h.read_closed ≡ is_read_closed h.at)
    × (reports h.at ≡ reports g.at)

copy_tcp-Goes :
    (a : Action) (c : Copier) (g h : Goroutine)
    → g.at ≡ c
    → InStep g
    → copy_tcp a c g ≡ some h
    → Goes g h
unfolding copy_tcp Goes
copy_tcp-Goes (copy_ends f) copying g0 h0 e (w, r) h =
    let same : ◌≡◌ {A = Goroutine} (record g0 { at = ended f }) h0 = cc in
    subst (Goes g0) same (w ∙ ap is_write_closed e, r ∙ ap is_read_closed e, ap reports (sym e))
copy_tcp-Goes (copy_ends f) (ended g) g0 h0 e k h = absurd (cc)
copy_tcp-Goes (copy_ends f) (half_closed g) g0 h0 e k h = absurd (cc)
copy_tcp-Goes (copy_ends f) (closed g) g0 h0 e k h = absurd (cc)
copy_tcp-Goes (copy_ends f) (reported g) g0 h0 e k h = absurd (cc)
copy_tcp-Goes close_write copying g0 h0 e k h = absurd (cc)
copy_tcp-Goes close_write (ended g) g0 h0 e (w, r) h =
    let same : ◌≡◌ {A = Goroutine} (record g0 { at = half_closed g; write_closed = true }) h0 =
      cc in
    subst (Goes g0) same (refl, r ∙ ap is_read_closed e, ap reports (sym e))
copy_tcp-Goes close_write (half_closed g) g0 h0 e k h = absurd (cc)
copy_tcp-Goes close_write (closed g) g0 h0 e k h = absurd (cc)
copy_tcp-Goes close_write (reported g) g0 h0 e k h = absurd (cc)
copy_tcp-Goes close_read copying g0 h0 e k h = absurd (cc)
copy_tcp-Goes close_read (ended g) g0 h0 e k h = absurd (cc)
copy_tcp-Goes close_read (half_closed g) g0 h0 e (w, r) h =
    let same : ◌≡◌ {A = Goroutine} (record g0 { at = closed g; read_closed = true }) h0 = cc in
    subst (Goes g0) same (w ∙ ap is_write_closed e, refl, ap reports (sym e))
copy_tcp-Goes close_read (closed g) g0 h0 e k h = absurd (cc)
copy_tcp-Goes close_read (reported g) g0 h0 e k h = absurd (cc)

set_up-IsKept :
    (a : Action) (s m : Streams)
    → IsKept s
    → set_up s (copy_tcp a s.to_backend.at s.to_backend) ≡ some m
    → IsKept m
unfolding set_up Goes
set_up-IsKept a s m k = go (copy_tcp a s.to_backend.at s.to_backend) refl
  where
    go :
        (o : Option Goroutine)
        → copy_tcp a s.to_backend.at s.to_backend ≡ o
        → set_up s o ≡ some m
        → IsKept m
    go none e h = absurd (cc)
    go (some g) e h =
        let same : ◌≡◌ {A = Streams} (record s { to_backend = g }) m = cc in
        let (w, r, n) = copy_tcp-Goes a s.to_backend.at s.to_backend g refl k.to_backend e in
        let old = k.counted in
        subst IsKept same (record {
          to_backend = (w, r);
          to_client = k.to_client;
          counted = omega arith;
          forced = k.forced;
        })

set_down-IsKept :
    (a : Action) (s m : Streams)
    → IsKept s
    → set_down s (copy_tcp a s.to_client.at s.to_client) ≡ some m
    → IsKept m
unfolding set_down Goes
set_down-IsKept a s m k = go (copy_tcp a s.to_client.at s.to_client) refl
  where
    go :
        (o : Option Goroutine)
        → copy_tcp a s.to_client.at s.to_client ≡ o
        → set_down s o ≡ some m
        → IsKept m
    go none e h = absurd (cc)
    go (some g) e h =
        let same : ◌≡◌ {A = Streams} (record s { to_client = g }) m = cc in
        let (w, r, n) = copy_tcp-Goes a s.to_client.at s.to_client g refl k.to_client e in
        let old = k.counted in
        subst IsKept same (record {
          to_backend = k.to_backend;
          to_client = (w, r);
          counted = omega arith;
          forced = k.forced;
        })

-- A result is sent only by a goroutine that has called `done`.
result-closed :
    (c : Copier) (f : Bool)
    → result c ≡ some f
    → (is_write_closed c ≡ true) × (is_read_closed c ≡ true) × (reports c ≡ 0)
unfolding result
result-closed copying f h = absurd (cc)
result-closed (ended g) f h = absurd (cc)
result-closed (half_closed g) f h = absurd (cc)
result-closed (closed g) f h = (refl, refl, refl)
result-closed (reported g) f h = absurd (cc)

report_up-IsKept :
    (s m : Streams) → IsKept s → report_up s (result s.to_backend.at) ≡ some m → IsKept m
unfolding report_up
report_up-IsKept s m k = go (result s.to_backend.at) refl
  where
    go : (o : Option Bool) → result s.to_backend.at ≡ o → report_up s o ≡ some m → IsKept m
    go none e h = absurd (cc)
    go (some f) e h =
        let (w, r, n) = result-closed s.to_backend.at f e in
        let same : ◌≡◌ {A = Streams}
            (record s {
              to_backend = record s.to_backend { at = reported f };
              channel = s.channel ++ f ∷ [];
            })
            m =
          cc in
        let old = k.counted in
        let longer = length_snoc f s.channel in
        subst IsKept same (record {
          to_backend = (k.to_backend.0 ∙ w, k.to_backend.1 ∙ r);
          to_client = k.to_client;
          counted = omega arith;
          forced = k.forced;
        })

report_down-IsKept :
    (s m : Streams) → IsKept s → report_down s (result s.to_client.at) ≡ some m → IsKept m
unfolding report_down
report_down-IsKept s m k = go (result s.to_client.at) refl
  where
    go : (o : Option Bool) → result s.to_client.at ≡ o → report_down s o ≡ some m → IsKept m
    go none e h = absurd (cc)
    go (some f) e h =
        let (w, r, n) = result-closed s.to_client.at f e in
        let same : ◌≡◌ {A = Streams}
            (record s {
              to_client = record s.to_client { at = reported f };
              channel = s.channel ++ f ∷ [];
            })
            m =
          cc in
        let old = k.counted in
        let longer = length_snoc f s.channel in
        subst IsKept same (record {
          to_backend = k.to_backend;
          to_client = (k.to_client.0 ∙ w, k.to_client.1 ∙ r);
          counted = omega arith;
          forced = k.forced;
        })

take_result-IsKept :
    (s m : Streams) (ch : List Bool) (w : Waiting)
    → s.channel ≡ ch
    → s.waiting ≡ w
    → IsKept s
    → take_result s ch ≡ some m
    → IsKept m
unfolding take_result received
take_result-IsKept s m [] w e q k h = absurd (cc)
take_result-IsKept s m (f ∷ rest) w e q k h =
    go w q (ap (λ (v : Waiting). received s f rest v) (sym q) ∙ h)
  where
    old_at :
        (v : Waiting)
        → s.waiting ≡ v
        → length (f ∷ rest) + received_count v ≡ reports s.to_backend.at + reports s.to_client.at
    old_at v p =
        ap (λ (xs : List Bool). length xs + received_count v) (sym e)
        ∙ ap (λ (x : Waiting). length s.channel + received_count x) (sym p)
        ∙ k.counted

    go : (v : Waiting) → s.waiting ≡ v → received s f rest v ≡ some m → IsKept m
    go for_first p r =
        let same : ◌≡◌ {A = Streams}
            (record s { channel = rest; deadlines = f; waiting = for_second f }) m =
          cc in
        let one = old_at for_first p in
        subst IsKept same (record {
          to_backend = k.to_backend;
          to_client = k.to_client;
          counted = omega arith;
          forced = refl;
        })
    go (for_second g) p r =
        let same : ◌≡◌ {A = Streams} (record s { channel = rest; waiting = returned g }) m = cc in
        let one = old_at (for_second g) p in
        subst IsKept same (record {
          to_backend = k.to_backend;
          to_client = k.to_client;
          counted = omega arith;
          forced = k.forced ∙ ap first_failed p;
        })
    go (returned g) p r = absurd (cc)

pub step-IsKept : (e : Event) (s m : Streams) → IsKept s → step e s ≡ some m → IsKept m
unfolding step
step-IsKept (act up a) s m k h = set_up-IsKept a s m k h
step-IsKept (act down a) s m k h = set_down-IsKept a s m k h
step-IsKept (report up) s m k h = report_up-IsKept s m k h
step-IsKept (report down) s m k h = report_down-IsKept s m k h
step-IsKept receive s m k h = take_result-IsKept s m s.channel s.waiting refl refl k h
