-- ===== src/Ring/Consume.antt =====
-- What a consumer reads, against the log of all messages ever produced.
use soju.Prelude.{
  ℕ, zero, suc, ◌+◌, ◌-◌, ◌%◌, ◌^◌, ◌≤◌, ◌<◌, ◌≡◌, inl, inr, refl, sym, ap, ◌∙◌, false, none, some,
  List, [], ◌∷◌, arith, ok, ◌==◌, ltb, if◌then◌else◌, length, get_elem?, set, get_elem?-set,
  Bool-cases, drop, drop-eq-cons, drop-drop, length-drop, ==_iff,
}
use soju.Ring.{RingConsumer, Memory, peek, consume, drain}
use soju.Ring.Invariant.{IsRing}

-- The last `cap` items of a list.
abbrev pub newest {ℓ} : {A : Type ℓ} → ℕ → List A → List A
newest cap xs = drop (length xs - cap) xs

-- The messages that a consumer at cursor `c` has still to read; older ones are lost to it.
abbrev pub unread {ℓ} : {A : Type ℓ} → List A → ℕ → ℕ → List A
unread log cap c = newest cap (drop c log)

-- The consumer at `rc` is open and has still to read `rest`.
pub record Awaits {ℓ} {A : Type ℓ} (log : List A) (m : Memory A) (rc : ℕ) (rest : List A)
    : Type ℓ where
  pub consumer : RingConsumer
  pub found : get_elem? m.heap rc ≡ some consumer
  pub ch_open : consumer.ch_closed ≡ false
  pub is_open : consumer.closed ≡ false
  pub behind : consumer.cur ≤ length log
  pub rest_is : unread log m.cap consumer.cur ≡ rest

-- The cursor that `Peek` jumps to.
abbrev pub target : ℕ → ℕ → ℕ → ℕ
target len cap c = if ltb cap (len - c) then len - cap else c

set-set :
    (heap : List RingConsumer) (rc : ℕ) (c d : RingConsumer)
    → set (set heap rc c) rc d ≡ set heap rc d
set-set [] rc c d = refl
set-set (x ∷ heap) zero c d = refl
set-set (x ∷ heap) (suc rc) c d = ap (◌∷◌ x) (set-set heap rc c d)

pub get_set :
    (heap : List RingConsumer) (rc : ℕ) (c d : RingConsumer)
    → get_elem? heap rc ≡ some c
    → get_elem? (set heap rc d) rc ≡ some d
get_set heap rc c d e = ground (arith, get_elem?-set heap rc rc d)

module _ {A : Type 0} where
  pub unread-target :
      (log : List A) (cap c : ℕ)
      → c ≤ length log
      → unread log cap c ≡ drop (target (length log) cap c) log
  unread-target log cap c b =
      drop-drop (length (drop c log) - cap) c log
      ∙ ap (λ (i : ℕ). drop i log) (ground (arith, length-drop c log))

  unread_next :
      (log : List A) (cap t : ℕ)
      → length log ≤ t + cap
      → t + 1 ≤ length log
      → unread log cap (t + 1) ≡ drop (suc t) log
  unread_next log cap t near b =
      unread-target log cap (t + 1) b
      ∙ ap (λ (i : ℕ). drop i log)
          (let e : target (length log) cap (t + 1) ≡ suc t = ground arith in e)

  pub peek_runs :
      (rc : ℕ) (m : Memory A) (len : ℕ) (c : RingConsumer) (msg : A)
      → get_elem? m.heap rc ≡ some c
      → c.closed ≡ false
      → c.cur < len
      → m.cur ≡ len
      → 0 < m.cap
      → get_elem? m.buffer (target len m.cap c.cur % m.cap) ≡ some (some msg)
      → peek rc m
        ≡ ok (
          some msg,
          record m { heap = set m.heap rc (record c { cur = target len m.cap c.cur }) },
        )
  unfolding peek
  peek_runs rc m len c msg found open_ b e pos reads = ground arith

  -- A consumer that an operation has moved is still at most as far as the log.
  pub set-IsRing :
      (log : List A) (m : Memory A) (rc : ℕ) (c c' : RingConsumer)
      → IsRing log m
      → get_elem? m.heap rc ≡ some c
      → c'.ch_closed ≡ false
      → c'.closed ≡ false
      → c'.cur ≤ length log
      → IsRing log (record m { heap = set m.heap rc c' })
  set-IsRing log m rc c c' h found o1 o2 b = record {
    cap_pos = h.cap_pos;
    size = h.size;
    cursor = h.cursor;
    small = h.small;
    holds = h.holds;
    distinct = h.distinct;
    attached = λ j k.
        let (d, old, p1, p2, b') = h.attached j k in
        elim (Bool-cases (rc == j)) [
          | inl same ↦ (
            c',
            ground
                (arith, get_elem?-set m.heap rc j c', ap (get_elem? m.heap) ((==_iff rc j).0 same)),
            o1,
            o2,
            b,
          )
          | inr other ↦ (d, ground (arith, get_elem?-set m.heap rc j c'), p1, p2, b')
        ];
  }

  pub peek_empty :
      (rc : ℕ) (m : Memory A) (len : ℕ) (c : RingConsumer)
      → get_elem? m.heap rc ≡ some c
      → c.closed ≡ false
      → m.cur ≡ len
      → c.cur ≡ len
      → peek rc m ≡ ok (none, m)
  unfolding peek
  peek_empty rc m len c found op e e' = ground arith

  -- `Consume` on a consumer with nothing to read returns nil, and changes nothing.
  pub consume-nil :
      (log : List A) (m : Memory A) (rc : ℕ)
      → IsRing log m
      → Awaits log m rc []
      → consume rc m ≡ ok (none, m)
  unfolding consume
  consume-nil log m rc h w =
      let c : RingConsumer = w.consumer in
      let done : length log ≤ c.cur = omega (
        arith,
        ap length w.rest_is,
        length-drop c.cur log,
        length-drop (length (drop c.cur log) - m.cap) (drop c.cur log),
        h.cap_pos,
      ) in
      ground (
        arith,
        peek_empty rc m (length log) c w.found w.is_open h.cursor (omega (arith, done, w.behind)),
      )

  consume_runs :
      (rc : ℕ) (m : Memory A) (len : ℕ) (c : RingConsumer) (msg : A)
      → get_elem? m.heap rc ≡ some c
      → c.closed ≡ false
      → c.cur < len
      → len < 2 ^ 64
      → m.cur ≡ len
      → 0 < m.cap
      → get_elem? m.buffer (target len m.cap c.cur % m.cap) ≡ some (some msg)
      → consume rc m
        ≡ ok (
          some msg,
          record m { heap = set m.heap rc (record c { cur = target len m.cap c.cur + 1 }) },
        )
  unfolding consume
  consume_runs rc m len c msg found op b small e pos reads =
      let first : RingConsumer = record c { cur = target len m.cap c.cur } in
      ground (
        arith,
        peek_runs rc m len c msg found op b e pos reads,
        get_set m.heap rc c first found,
        set-set m.heap rc first (record c { cur = target len m.cap c.cur + 1 }),
      )

  -- `Consume` returns the oldest message that the consumer has still to read, and removes it from
  -- what it has to read; the ring and its log stay as they are.
  pub consume-cons :
      (log : List A) (m : Memory A) (rc : ℕ) (msg : A) (rest : List A)
      → IsRing log m
      → Awaits log m rc (msg ∷ rest)
      → (m' : Memory A) × (consume rc m ≡ ok (some msg, m'))
        × IsRing log m'
        × Awaits log m' rc rest
        × (m'.ring ≡ m.ring)
  consume-cons log m rc msg rest h w =
      let c : RingConsumer = w.consumer in
      let t : ℕ = target (length log) m.cap c.cur in
      let b : c.cur < length log = omega (
        arith,
        ap length w.rest_is,
        length-drop c.cur log,
        length-drop (length (drop c.cur log) - m.cap) (drop c.cur log),
      ) in
      let (reads, after) =
        drop-eq-cons log t msg rest (sym (unread-target log m.cap c.cur w.behind) ∙ w.rest_is) in
      let near : (length log ≤ t + m.cap) × (t + 1 ≤ length log) = ground (arith, b, h.cap_pos) in
      let c' : RingConsumer = record c { cur = t + 1 } in
      (
        record m { heap = set m.heap rc c' },
        consume_runs rc m (length log) c msg w.found w.is_open b h.small h.cursor h.cap_pos
            (h.holds t msg near.0 reads),
        set-IsRing log m rc c c' h w.found w.ch_open w.is_open near.1,
        record {
          consumer = c';
          found = get_set m.heap rc c c' w.found;
          ch_open = w.ch_open;
          is_open = w.is_open;
          behind = near.1;
          rest_is = unread_next log m.cap t near.0 near.1 ∙ after;
        },
        refl,
      )

  -- With more fuel than there are messages to read, draining an open consumer of a ring returns exactly
  -- those, in the order in which they were produced, leaves it with nothing to read, and does not change
  -- what the ring holds.
  pub drain_lem :
      (log : List A) (fuel : ℕ) (m : Memory A) (rc : ℕ) (rest : List A)
      → IsRing log m
      → Awaits log m rc rest
      → length rest < fuel
      → (m' : Memory A) × (drain fuel rc m ≡ ok (some rest, m'))
        × IsRing log m'
        × Awaits log m' rc []
        × (m'.ring ≡ m.ring)
  unfolding drain
  drain_lem log zero m rc rest h w lt = elim lt [ ]
  drain_lem log (suc fuel) m rc [] h w lt =
      (m, ground (arith, consume-nil log m rc h w), h, w, refl)
  drain_lem log (suc fuel) m rc (msg ∷ rest) h w lt =
      let (m1, runs, h1, w1, same) = consume-cons log m rc msg rest h w in
      let (m2, later, h2, w2, same') = drain_lem log fuel m1 rc rest h1 w1 (omega arith) in
      (m2, ground (arith, runs, later), h2, w2, same' ∙ same)
