-- ===== src/Ring/Peek.antt =====
-- `Peek` on a consumer that has something to read: the message stays, and the cursor jumps to it.
use soju.Prelude.{
  ℕ, none, [], ◌+◌, ◌-◌, ◌≤◌, ◌<◌, ◌≡◌, sym, ap, ◌∙◌, some, List, ◌∷◌, arith, ok, length, get_elem?,
  set, drop, drop-eq-cons, length-drop,
}
use soju.Ring.{RingConsumer, Memory, peek}
use soju.Ring.Invariant.{IsRing}
use soju.Ring.Consume.{Awaits, target, unread-target, peek_runs, peek_empty, set-IsRing, get_set}

module _ {A : Type 0} where
  -- The place of the next message among all that were produced: as many are before it as are not unread.
  abbrev pub next_place : List A → List A → ℕ
  next_place log rest = length log - length rest

  pub peek-cons :
      (log : List A) (m : Memory A) (rc : ℕ) (msg : A) (rest : List A)
      → IsRing log m
      → Awaits log m rc (msg ∷ rest)
      → (m' : Memory A) × (c : RingConsumer) × (peek rc m ≡ ok (some msg, m'))
        × IsRing log m'
        × Awaits log m' rc (msg ∷ rest)
        × (get_elem? m'.heap rc ≡ some c)
        × (c.cur ≡ next_place log (msg ∷ rest))
  peek-cons log m rc msg rest h w =
      let c : RingConsumer = w.consumer in
      let t : ℕ = target (length log) m.cap c.cur in
      let b : c.cur < length log = omega (
        arith,
        ap length w.rest_is,
        length-drop c.cur log,
        length-drop (length (drop c.cur log) - m.cap) (drop c.cur log),
      ) in
      let all : drop t log ≡ msg ∷ rest =
        sym (unread-target log m.cap c.cur w.behind) ∙ w.rest_is in
      let (reads, after) = drop-eq-cons log t msg rest all in
      let near : (length log ≤ t + m.cap) × (t + 1 ≤ length log) = ground (arith, b, h.cap_pos) in
      let c' : RingConsumer = record c { cur = t } in
      let stays : target (length log) m.cap t ≡ t = ground (arith, near) in
      (
        record m { heap = set m.heap rc c' },
        c',
        peek_runs rc m (length log) c msg w.found w.is_open b h.cursor h.cap_pos
            (h.holds t msg near.0 reads),
        set-IsRing log m rc c c' h w.found w.ch_open w.is_open (omega (arith, near.1)),
        record {
          consumer = c';
          found = get_set m.heap rc c c' w.found;
          ch_open = w.ch_open;
          is_open = w.is_open;
          behind = omega (arith, near.1);
          rest_is =
              unread-target log m.cap t (omega (arith, near.1))
              ∙ ap (λ (i : ℕ). drop i log) stays
              ∙ all;
        },
        get_set m.heap rc c c' w.found,
        omega (arith, near.1, ap length all, length-drop t log),
      )

  pub peek-nil :
      (log : List A) (m : Memory A) (rc : ℕ)
      → IsRing log m
      → Awaits log m rc []
      → peek rc m ≡ ok (none, m)
  peek-nil log m rc h w =
      let c : RingConsumer = w.consumer in
      let done : length log ≤ c.cur = omega (
        arith,
        ap length w.rest_is,
        length-drop c.cur log,
        length-drop (length (drop c.cur log) - m.cap) (drop c.cur log),
        h.cap_pos,
      ) in
      peek_empty rc m (length log) c w.found w.is_open h.cursor (omega (arith, done, w.behind))
