-- ===== src/Downstream/Delivery/Tests.antt =====
-- A client that has said something on a connection, and is told something.
use mathlib.Core.Option
use soju.Prelude.{
  ℕ, zero, suc, ◌%◌, ◌≡◌, refl, ap, true, false, none, some, [], ◌∷◌, arith, ok, contains,
  get_elem?,
}
use soju.Prelude.Text.{codes}
use soju.Irc.{Message, Command}
use soju.Ring.{RingConsumer, Memory, peek, consume}
use soju.Ring.Invariant.{IsRing, IsOpen}
use soju.Ring.Consume.{Awaits}
use soju.Downstream.Delivery.{
  Writer, is_ours, forget, to_write, pass_on, skip, offer, write_next, write_pending,
}
use soju.Downstream.Delivery.InOrder.{Delivered, write_pending-Delivered}

abbrev hello : Message
hello = record {
  prefix = none;
  command = Command.privmsg;
  params = codes "#a" ∷ codes "hello" ∷ [];
}

abbrev echoed : Message
echoed = record { prefix = none; command = Command.privmsg; params = codes "#a" ∷ codes "hi" ∷ [] }

abbrev reader : RingConsumer
reader = record { cur = 0; pending = true; ch_closed = false; closed = false }

abbrev filled : Memory Message
filled = record {
  ring = record { buffer = some hello ∷ some echoed ∷ []; cap = 2; cur = 2; consumers = 0 ∷ [] };
  heap = reader ∷ [];
}

-- The second message is the client's own; the connection's identity is 5.
abbrev writer : Writer
writer = record { ours = (5, 1) ∷ []; ring = filled; written = [] }

-- Everything but the client's own message is written.
run_write_pending :
    write_pending (λ before msg. true) 5 0 3 writer
    ≡ ok (
      some true,
      record {
        ours = [];
        ring = record filled { heap = record reader { cur = 2 } ∷ [] };
        written = hello ∷ [];
      },
    )
unfolding write_pending write_next offer skip pass_on to_write is_ours forget peek consume
run_write_pending = refl

filled-IsRing : IsRing (hello ∷ echoed ∷ []) filled
filled-IsRing = record {
  cap_pos = omega arith;
  size = refl;
  cursor = refl;
  small = omega arith;
  holds = λ j a n e. each_message j a e;
  attached = λ rc h. first_consumer rc h;
  distinct = (refl, tt);
}
  where
    each_message :
        (j : ℕ) (a : Message)
        → get_elem? (hello ∷ echoed ∷ []) j ≡ some a
        → get_elem? filled.buffer (j % 2) ≡ some (some a)
    each_message zero a e = ap (Option.map some) e
    each_message (suc zero) a e = ap (Option.map some) e
    each_message (suc (suc j)) a e = absurd (Option.none-ne-some a e)

    first_consumer : (rc : ℕ) → contains (0 ∷ []) rc ≡ true → IsOpen filled.heap 2 rc
    first_consumer rc h =
        let p : rc ≡ 0 = ground arith in
        (reader, ap (get_elem? filled.heap) p, refl, refl, omega arith)

filled-Awaits : Awaits (hello ∷ echoed ∷ []) filled 0 (hello ∷ echoed ∷ [])
filled-Awaits = record {
  consumer = reader;
  found = refl;
  ch_open = refl;
  is_open = refl;
  behind = omega arith;
  rest_is = refl;
}

write_pending-Delivered_example :
    Delivered
      (λ before msg. true)
      5
      0
      (hello ∷ echoed ∷ [])
      (hello ∷ echoed ∷ [])
      writer
      (write_pending (λ before msg. true) 5 0 3 writer)
unfolding to_write
write_pending-Delivered_example =
    write_pending-Delivered (λ before msg. true) 5 0 3 (hello ∷ echoed ∷ []) (hello ∷ echoed ∷ [])
      writer filled-IsRing filled-Awaits (refl, (refl, tt)) (omega arith)
