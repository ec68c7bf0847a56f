-- ===== src/Ring/Tests.antt =====
-- Runs of the ring, and the theorems at concrete inputs.
use mathlib.Core.Option
use soju.Prelude.{
  ℕ, zero, suc, ◌≤◌, ◌%◌, ◌≡◌, refl, ap, true, false, none, some, List, length, [], ◌∷◌, arith, ok,
  contains, get_elem?,
}
use soju.Ring.{
  RingConsumer, Memory, notify, produce, new_consumer, peek, consume, drain, close, remove_first,
}
use soju.Ring.Invariant.{IsRing, IsOpen, Notified}
use soju.Ring.Produce.{produce-IsRing}
use soju.Ring.Consume.{Awaits, unread, drain_lem}
use soju.Ring.Attach.{new_consumer_lem, close_lem}
use soju.Ring.Bounds.{catch_up, catch_up-bounded}
use soju.Ring.Resume.{produce-Awaits, come_back, produce_all, come_back_lem}

abbrev idle : RingConsumer
idle = record { cur = 0; pending = false; ch_closed = false; closed = false }

-- A ring of two places with one consumer, and no message yet.
abbrev start : Memory ℕ
start = record {
  ring = record { buffer = none ∷ none ∷ []; cap = 2; cur = 0; consumers = 0 ∷ [] };
  heap = idle ∷ [];
}

start-IsRing : IsRing [] start
start-IsRing = record {
  cap_pos = omega arith;
  size = refl;
  cursor = refl;
  small = omega arith;
  holds = λ j a n e. cc;
  attached = λ rc h. first rc h;
  distinct = (refl, tt);
}
  where
    first : (rc : ℕ) → contains (0 ∷ []) rc ≡ true → IsOpen (idle ∷ []) 0 rc
    first rc h =
        let p : rc ≡ 0 = ground arith in
        (idle, ap (get_elem? (idle ∷ [])) p, refl, refl, omega arith)

start-Awaits : Awaits [] start 0 []
start-Awaits = record {
  consumer = idle;
  found = refl;
  ch_open = refl;
  is_open = refl;
  behind = omega arith;
  rest_is = refl;
}

-- Of three messages in a ring of two places, the last two come back.
run_come_back :
    come_back 0 (7 ∷ 8 ∷ 9 ∷ []) 3 start
    ≡ ok (
      some (8 ∷ 9 ∷ []),
      record {
        ring = record { buffer = some 9 ∷ some 8 ∷ []; cap = 2; cur = 3; consumers = 1 ∷ [] };
        heap =
            record { cur = 0; pending = false; ch_closed = true; closed = true }
            ∷ record { cur = 3; pending = true; ch_closed = false; closed = false }
            ∷ [];
      },
    )
unfolding come_back produce_all produce notify new_consumer drain consume peek close remove_first
run_come_back = refl

come_back_lem_example :
    (m' : Memory ℕ) × (come_back 0 (7 ∷ 8 ∷ 9 ∷ []) 3 start ≡ ok (some (8 ∷ 9 ∷ []), m'))
    × IsRing (7 ∷ 8 ∷ 9 ∷ []) m'
come_back_lem_example =
    come_back_lem [] (7 ∷ 8 ∷ 9 ∷ []) [] start 0 3 start-IsRing start-Awaits (omega arith)
      (omega arith)

produce-Awaits_example :
    (m' : Memory ℕ) × (produce 7 start ≡ ok m')
    × IsRing (7 ∷ []) m'
    × ((w : Awaits (7 ∷ []) m' 0 (7 ∷ [])) × (w.consumer.pending ≡ true))
produce-Awaits_example = produce-Awaits [] 7 start 0 [] start-IsRing start-Awaits refl (omega arith)

produce-IsRing_example :
    (m' : Memory ℕ) × (produce 7 start ≡ ok m')
    × IsRing (7 ∷ []) m'
    × Notified (0 ∷ []) (idle ∷ []) m'.heap
    × (m'.cap ≡ 2)
    × (m'.consumers ≡ 0 ∷ [])
produce-IsRing_example = produce-IsRing [] 7 start start-IsRing (omega arith)

-- The same ring with one message, as `Produce` leaves it.
abbrev fed : Memory ℕ
fed = record {
  ring = record { buffer = some 7 ∷ none ∷ []; cap = 2; cur = 1; consumers = 0 ∷ [] };
  heap = record idle { pending = true } ∷ [];
}

run_produce : produce 7 start ≡ ok fed
unfolding produce notify
run_produce = refl

fed-IsRing : IsRing (7 ∷ []) fed
fed-IsRing = record {
  cap_pos = omega arith;
  size = refl;
  cursor = refl;
  small = omega arith;
  holds = λ j a n e. first_message j a e;
  attached = λ rc h. first_consumer rc h;
  distinct = (refl, tt);
}
  where
    first_message :
        (j a : ℕ) → get_elem? (7 ∷ []) j ≡ some a → get_elem? fed.buffer (j % 2) ≡ some (some a)
    first_message zero a e = ap (Option.map some) e
    first_message (suc j) a e = cc

    first_consumer : (rc : ℕ) → contains (0 ∷ []) rc ≡ true → IsOpen fed.heap 1 rc
    first_consumer rc h =
        let p : rc ≡ 0 = ground arith in
        (record idle { pending = true }, ap (get_elem? fed.heap) p, refl, refl, omega arith)

fed-Awaits : Awaits (7 ∷ []) fed 0 (7 ∷ [])
fed-Awaits = record {
  consumer = record idle { pending = true };
  found = refl;
  ch_open = refl;
  is_open = refl;
  behind = omega arith;
  rest_is = refl;
}

drain_lem_example :
    (m' : Memory ℕ) × (drain 2 0 fed ≡ ok (some (7 ∷ []), m'))
    × IsRing (7 ∷ []) m'
    × Awaits (7 ∷ []) m' 0 []
    × (m'.ring ≡ fed.ring)
drain_lem_example = drain_lem (7 ∷ []) 2 fed 0 (7 ∷ []) fed-IsRing fed-Awaits (omega arith)

new_consumer_lem_example :
    (rc : ℕ) × (m' : Memory ℕ) × (new_consumer (some 0) fed ≡ ok (rc, m'))
    × IsRing (7 ∷ []) m'
    × ((w : Awaits (7 ∷ []) m' rc (7 ∷ [])) × (w.consumer.pending ≡ true))
    × (contains m'.consumers rc ≡ true)
    × (m'.cap ≡ 2)
new_consumer_lem_example = new_consumer_lem (7 ∷ []) (some 0) fed fed-IsRing (omega arith)

close_lem_example :
    (seq : ℕ) × (m' : Memory ℕ) × (close 0 fed ≡ ok (seq, m'))
    × IsRing (7 ∷ []) m'
    × (seq ≤ 1)
    × (unread {A = ℕ} (7 ∷ []) 2 seq ≡ 7 ∷ [])
    × (contains m'.consumers 0 ≡ false)
    × (m'.cap ≡ 2)
close_lem_example = close_lem (7 ∷ []) fed 0 (7 ∷ []) fed-IsRing fed-Awaits

-- The consumer has stayed, and reads the same.
run_catch_up :
    catch_up 0 (7 ∷ 8 ∷ 9 ∷ []) 3 start
    ≡ ok (
      some (8 ∷ 9 ∷ []),
      record {
        ring = record { buffer = some 9 ∷ some 8 ∷ []; cap = 2; cur = 3; consumers = 0 ∷ [] };
        heap = record { cur = 3; pending = true; ch_closed = false; closed = false } ∷ [];
      },
    )
unfolding catch_up produce_all produce notify drain consume peek
run_catch_up = refl

catch_up-bounded_example :
    (out : List ℕ) × (m' : Memory ℕ) × (catch_up 0 (7 ∷ 8 ∷ 9 ∷ []) 3 start ≡ ok (some out, m'))
    × (out ≡ 8 ∷ 9 ∷ [])
    × (length out ≤ 2)
    × (3 ≤ 2 → out ≡ 7 ∷ 8 ∷ 9 ∷ [])
    × (length m'.buffer ≡ 2)
    × (m'.cur ≡ 3)
    × Awaits (7 ∷ 8 ∷ 9 ∷ []) m' 0 []
catch_up-bounded_example =
    catch_up-bounded [] (7 ∷ 8 ∷ 9 ∷ []) [] start 0 3 start-IsRing start-Awaits refl (omega arith)
      (omega arith)
