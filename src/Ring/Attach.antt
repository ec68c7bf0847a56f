-- ===== src/Ring/Attach.antt =====
-- Consumers come and go: `NewConsumer` and `Close`.
use mathlib.Core.Option
use native.Mathlib.Nat.{le_refl}
use soju.Prelude.{
  ℕ, zero, suc, ◌-◌, ◌≤◌, ◌<◌, ◌≡◌, inl, inr, refl, sym, ap, ◌∙◌, true, false, Option, none, some,
  List, [], ◌∷◌, ◌++◌, arith, ok, ◌==◌, ltb, length, get_elem?, set, contains, IsDistinct,
  contains-concat, IsDistinct-concat, get_elem?-set, Bool-cases, get_elem?-append_left,
  get_elem?-concat, get_elem?-ge, length-replicate, ==_refl, ==_iff,
}
use soju.Ring.{RingConsumer, Memory, new_consumer, close, remove_first, new_ring}
use soju.Ring.Invariant.{IsRing, IsOpen}
use soju.Ring.Consume.{Awaits, unread}

contains-remove_first :
    (rc j : ℕ) (xs : List ℕ)
    → IsDistinct xs
    → contains (remove_first rc xs) j ≡ true
    → (contains xs j ≡ true) × ((rc == j) ≡ false)
unfolding remove_first
contains-remove_first rc j [] d h = cc
contains-remove_first rc j (x ∷ xs) d h = elim (Bool-cases (x == rc)) [
  | inl first ↦
      let p : x ≡ rc = (==_iff x rc).0 first in
      (
        ground arith,
        ground
            (arith, ap (contains xs) p, λ (e : rc ≡ j). ap (contains xs) e, Bool-cases (rc == j)),
      )
  | inr later ↦ elim (Bool-cases (x == j)) [
    | inl here ↦ (ground arith, ground arith)
    | inr there ↦
        let ih = contains-remove_first rc j xs d.1 (ground arith) in (ground (arith, ih.0), ih.1)
  ]
]

IsDistinct-remove_first : (rc : ℕ) (xs : List ℕ) → IsDistinct xs → IsDistinct (remove_first rc xs)
unfolding remove_first
IsDistinct-remove_first rc [] d = tt
IsDistinct-remove_first rc (x ∷ xs) d = elim (Bool-cases (x == rc)) [
  | inl first ↦ rw (first, remove_first) d.1
  | inr later ↦ rw (later, remove_first) (absent, IsDistinct-remove_first rc xs d.1)
]
  where
    absent : contains (remove_first rc xs) x ≡ false
    absent = elim (Bool-cases (contains (remove_first rc xs) x)) [
      | inl found ↦ cc ((contains-remove_first rc x xs d.1 found).0, d.0)
      | inr missing ↦ missing
    ]

IsOpen-append :
    (heap more : List RingConsumer) (limit rc : ℕ)
    → IsOpen heap limit rc
    → IsOpen (heap ++ more) limit rc
IsOpen-append heap more limit rc (c, found, o1, o2, b) = (c, read, o1, o2, b)
  where
    below :
        (i : ℕ) (l : List RingConsumer) (d : RingConsumer) → get_elem? l i ≡ some d → i < length l
    below i [] d e = cc
    below zero (x ∷ l) d e = omega arith
    below (suc i) (x ∷ l) d e = omega (arith, below i l d e)

    read : get_elem? (heap ++ more) rc ≡ some c
    read = get_elem?-append_left heap more rc (below rc heap c found) ∙ found

module _ {A : Type 0} where
  -- A new ring of a capacity of at least one has seen no message.
  pub new_ring-IsRing :
      (capacity : ℕ)
      → 0 < capacity
      → IsRing {A = A} [] (record { ring = new_ring capacity; heap = [] })
  unfolding new_ring
  new_ring-IsRing capacity pos = record {
    cap_pos = pos;
    size = length-replicate capacity none;
    cursor = refl;
    small = omega arith;
    holds = λ j a n e. cc;
    attached = λ rc e. cc;
    distinct = tt;
  }

  -- The state that `NewConsumer` leaves.
  abbrev made : Memory A → ℕ → ℕ → Memory A
  made m len start = record {
    ring = record m.ring { consumers = m.consumers ++ length m.heap ∷ [] };
    heap =
        m.heap
        ++ record { cur = start; pending = ltb 0 (len - start); ch_closed = false; closed = false }
          ∷ [];
  }

  new_consumer_runs :
      (seq : Option ℕ) (m : Memory A) (len start : ℕ)
      → m.cur ≡ len
      → Option.get_or seq len ≡ start
      → start ≤ len
      → new_consumer seq m ≡ ok (length m.heap, made m len start)
  unfolding new_consumer
  new_consumer_runs none m len start e e' b = ground arith
  new_consumer_runs (some s) m len start e e' b = ground arith

  fresh_address :
      (log : List A) (m : Memory A) → IsRing log m → contains m.consumers (length m.heap) ≡ false
  fresh_address log m h = elim (Bool-cases (contains m.consumers (length m.heap))) [
    | inl old ↦
        let (c, found, _, _, _) = h.attached (length m.heap) old in
        cc (found, get_elem?-ge m.heap (length m.heap) (le_refl _))
    | inr new ↦ new
  ]

  made-IsOpen :
      (log : List A) (m : Memory A) (len start rc : ℕ)
      → IsRing log m
      → start ≤ length log
      → contains (m.consumers ++ length m.heap ∷ []) rc ≡ true
      → IsOpen (made m len start).heap (length log) rc
  made-IsOpen log m len start rc h b listed = elim (Bool-cases (contains m.consumers rc)) [
    | inl old ↦ IsOpen-append m.heap _ (length log) rc (h.attached rc old)
    | inr new ↦
        let p : length m.heap ≡ rc =
          ground (arith, contains-concat m.consumers (length m.heap) rc) in
        (
          _,
          ap (get_elem? (made m len start).heap) (sym p) ∙ get_elem?-concat m.heap _,
          refl,
          refl,
          b,
        )
  ]

  -- A consumer made from a sequence number that the ring has reached, or from none, which stands for the
  -- end of the log, is attached and has to read what the ring holds from there; its channel holds an item
  -- exactly if the log goes on from there.
  pub new_consumer_lem :
      (log : List A) (seq : Option ℕ) (m : Memory A)
      → IsRing log m
      → Option.get_or seq (length log) ≤ length log
      → (rc : ℕ) × (m' : Memory A) × (new_consumer seq m ≡ ok (rc, m'))
        × IsRing log m'
        × ((w : Awaits log m' rc (unread log m.cap (Option.get_or seq (length log))))
            × (w.consumer.pending ≡ ltb (Option.get_or seq (length log)) (length log)))
        × (contains m'.consumers rc ≡ true)
        × (m'.cap ≡ m.cap)
  new_consumer_lem log seq m h b =
      let start : ℕ = Option.get_or seq (length log) in
      (
        length m.heap,
        made m (length log) start,
        new_consumer_runs seq m (length log) start h.cursor refl b,
        record {
          cap_pos = h.cap_pos;
          size = h.size;
          cursor = h.cursor;
          small = h.small;
          holds = h.holds;
          attached = λ rc k. made-IsOpen log m (length log) start rc h b k;
          distinct = IsDistinct-concat m.consumers _ h.distinct (fresh_address log m h);
        },
        (
          record {
            consumer = _;
            found = get_elem?-concat m.heap _;
            ch_open = refl;
            is_open = refl;
            behind = b;
            rest_is = refl;
          },
          ground arith,
        ),
        ground (arith, contains-concat m.consumers (length m.heap) (length m.heap)),
        refl,
      )

  -- Closing an attached consumer returns the sequence number from which the rest can be read.
  pub close_lem :
      (log : List A) (m : Memory A) (rc : ℕ) (rest : List A)
      → IsRing log m
      → Awaits log m rc rest
      → (seq : ℕ) × (m' : Memory A) × (close rc m ≡ ok (seq, m'))
        × IsRing log m'
        × (seq ≤ length log)
        × (unread log m.cap seq ≡ rest)
        × (contains m'.consumers rc ≡ false)
        × (m'.cap ≡ m.cap)
  unfolding close
  close_lem log m rc rest h w =
      let c : RingConsumer = w.consumer in
      let gone = λ (j : ℕ). contains-remove_first rc j m.consumers h.distinct in
      (
        c.cur,
        record {
          ring = record m.ring { consumers = remove_first rc m.consumers };
          heap = set m.heap rc (record c { ch_closed = true; closed = true });
        },
        ground (arith, w.found, w.ch_open),
        record {
          cap_pos = h.cap_pos;
          size = h.size;
          cursor = h.cursor;
          small = h.small;
          holds = h.holds;
          attached = λ j k.
              let (d, found, o1, o2, b) = h.attached j (gone j k).0 in
              (
                d,
                ground (
                  arith,
                  get_elem?-set m.heap rc j (record c { ch_closed = true; closed = true }),
                  (gone j k).1,
                ),
                o1,
                o2,
                b,
              );
          distinct = IsDistinct-remove_first rc m.consumers h.distinct;
        },
        w.behind,
        w.rest_is,
        absent m.consumers h.distinct,
        refl,
      )
    where
      absent : (xs : List ℕ) → IsDistinct xs → contains (remove_first rc xs) rc ≡ false
      absent xs d = elim (Bool-cases (contains (remove_first rc xs) rc)) [
        | inl found ↦ cc ((contains-remove_first rc rc xs d found).1, ==_refl rc)
        | inr missing ↦ missing
      ]
