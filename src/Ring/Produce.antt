-- ===== src/Ring/Produce.antt =====
-- `Produce` appends one message to the log and wakes every consumer.
use native.Mathlib.Nat.{mod-lt}
use soju.Prelude.{
  ℕ, zero, suc, ◌+◌, ◌%◌, ◌^◌, ◌≤◌, ◌<◌, ◌≡◌, inl, inr, ◌≢◌, refl, ap, ◌∙◌, false, Option, some,
  List, [], ◌∷◌, ◌++◌, arith, ok, ◌==◌, length, get_elem?, set, contains, get_elem?-set, Bool-cases,
  get_elem?-concat, get_elem?-lt, length-append, length-set,
}
use soju.Ring.{RingConsumer, Memory, increment, notify, produce}
use soju.Ring.Invariant.{IsRing, IsOpen, Notified, notify_lem, woken}

-- Two counters less than `c` apart have different slots.
slots_differ : (j l c : ℕ) → j < l → l < j + c → (l % c) ≢ (j % c)
slots_differ j l c h k e = grind (arith)

IsOpen-Notified :
    (heap heap' : List RingConsumer) (targets : List ℕ) (limit rc : ℕ)
    → Notified targets heap heap'
    → IsOpen heap limit rc
    → IsOpen heap' (limit + 1) rc
IsOpen-Notified heap heap' targets limit rc reads (c, found, o1, o2, b) =
    elim (Bool-cases (contains targets rc)) [
      | inl waked ↦ (woken c, ground (arith, reads rc, found), o1, o2, omega arith)
      | inr same ↦ (c, ground (arith, reads rc, found), o1, o2, omega arith)
    ]

module _ {ℓ} {A : Type ℓ} where
  below_of_read :
      (log : List A) (msg : A) (j : ℕ) (a : A)
      → get_elem? (log ++ msg ∷ []) j ≡ some a
      → (j == length log) ≡ false
      → (j < length log) × (get_elem? log j ≡ some a)
  below_of_read [] msg zero a e h = cc
  below_of_read [] msg (suc j) a e h = cc
  below_of_read (x ∷ log) msg zero a e h = (omega arith, e)
  below_of_read (x ∷ log) msg (suc j) a e h =
      let (n, p) = below_of_read log msg j a e (ground arith) in (omega (arith, n), p)

  -- The slot of the new message is written, and those of the `cap - 1` before it are kept.
  holds-produce :
      (log : List A) (msg : A) (buffer : List (Option A)) (cap : ℕ)
      → 0 < cap
      → length buffer ≡ cap
      → ((j : ℕ) (a : A)
          → length log ≤ j + cap
          → get_elem? log j ≡ some a
          → get_elem? buffer (j % cap) ≡ some (some a))
      → (j : ℕ) (a : A) → length (log ++ msg ∷ []) ≤ j + cap
      → get_elem? (log ++ msg ∷ []) j ≡ some a
      → get_elem? (set buffer (length log % cap) (some msg)) (j % cap) ≡ some (some a)
  holds-produce log msg buffer cap pos size holds j a near e = elim (Bool-cases (j == length log)) [
    | inl last ↦
        let p : j ≡ length log = ground arith in
        ground (
          arith,
          get_elem?-set buffer (length log % cap) (j % cap) (some msg),
          get_elem?-lt buffer (j % cap) (rw size (mod-lt j pos)),
          ap (λ (i : ℕ). get_elem? (log ++ msg ∷ []) i) p,
          ap (λ (i : ℕ). i % cap) p,
          get_elem?-concat log msg,
        )
    | inr old ↦
        let (n, p) = below_of_read log msg j a e old in
        ground (
          arith,
          get_elem?-set buffer (length log % cap) (j % cap) (some msg),
          slots_differ j (length log) cap n (omega (arith, length-append log (msg ∷ []))),
          holds j a (omega (arith, length-append log (msg ∷ []))),
          p,
        )
  ]

  produce_runs :
      (msg : A) (m : Memory A) (heap : List RingConsumer)
      → 0 < m.cap
      → length m.buffer ≡ m.cap
      → notify m.consumers m.heap ≡ ok heap
      → produce msg m
        ≡ ok (record {
          ring = record m.ring {
            buffer = set m.buffer (m.cur % m.cap) (some msg);
            cur = increment m.cur;
          };
          heap = heap;
        })
  unfolding produce
  produce_runs msg m heap pos size runs = ground (arith, mod-lt m.cur pos)

  -- While the ring has counted fewer than 2 ^ 64 - 1 messages, `Produce` returns: the ring then holds the
  -- log with the message appended, every consumer of the ring has an item in its channel, and the capacity
  -- and the consumers are as they were.
  pub produce-IsRing :
      (log : List A) (msg : A) (m : Memory A)
      → IsRing log m
      → length log + 1 < 2 ^ 64
      → (m' : Memory A) × (produce msg m ≡ ok m')
        × IsRing (log ++ msg ∷ []) m'
        × Notified m.consumers m.heap m'.heap
        × (m'.cap ≡ m.cap)
        × (m'.consumers ≡ m.consumers)
  produce-IsRing log msg m h room =
      let (heap, runs, reads) = notify_lem m.consumers m.heap (length log) h.attached in
      (
        _,
        produce_runs msg m heap h.cap_pos h.size runs,
        record {
          cap_pos = h.cap_pos;
          size = length-set m.buffer _ _ ∙ h.size;
          cursor = omega (arith, h.cursor, length-append log (msg ∷ []));
          small = omega (arith, length-append log (msg ∷ []));
          holds = rw h.cursor (holds-produce log msg m.buffer m.cap h.cap_pos h.size h.holds);
          distinct = h.distinct;
          attached = λ rc k.
              rw length-append
                (IsOpen-Notified m.heap heap m.consumers (length log) rc reads (h.attached rc k));
        },
        reads,
        refl,
        refl,
      )
