-- ===== src/Ring/Resume.antt =====
-- Backlog synchronisation: a client that goes away and comes back with its sequence number.
use soju.Prelude.{
  ℕ, ◌+◌, ◌-◌, ◌^◌, ◌≤◌, ◌<◌, ◌≡◌, refl, sym, ap, ◌∙◌, true, Option, some, List, [], ◌∷◌, ◌++◌,
  append-nil, append_assoc, arith, Outcome, ok, ◌>>=◌, length, contains, length-append, length-drop,
  drop, drop-append, drop-drop,
}
use soju.Ring.{Memory, produce, drain, new_consumer, close}
use soju.Ring.Invariant.{IsRing, woken}
use soju.Ring.Produce.{produce-IsRing}
use soju.Ring.Consume.{Awaits, newest, unread, drain_lem}
use soju.Ring.Attach.{new_consumer_lem, close_lem}

module _ {A : Type 0} where
  -- What falls out of the ring early would fall out later.
  pub newest-newest : (n : ℕ) (xs ys : List A) → newest n (newest n xs ++ ys) ≡ newest n (xs ++ ys)
  newest-newest n xs ys =
      let k : ℕ = length xs - n in
      let front : drop k xs ++ ys ≡ drop k (xs ++ ys) = sym (drop-append xs ys k (omega arith)) in
      let back : ℕ = length (drop k xs ++ ys) - n in
      ap (drop back) front
      ∙ drop-drop back k (xs ++ ys)
      ∙ ap (λ (i : ℕ). drop i (xs ++ ys))
          (omega (arith, length-append xs ys, length-append (drop k xs) ys, length-drop k xs))

  unread-append :
      (log msgs rest : List A) (cap seq : ℕ)
      → seq ≤ length log
      → unread log cap seq ≡ rest
      → unread (log ++ msgs) cap seq ≡ newest cap (rest ++ msgs)
  unread-append log msgs rest cap seq b e =
      ap (newest cap) (drop-append log msgs seq b)
      ∙ sym (newest-newest cap (drop seq log) msgs)
      ∙ ap (λ (r : List A). newest cap (r ++ msgs)) e

  -- A run of `Produce` calls.
  unfoldable pub produce_all : List A → Memory A → Outcome (Memory A)
  produce_all [] m = ok m
  produce_all (msg ∷ msgs) m = do m' ← produce msg m; produce_all msgs m'

  -- While fewer than 2 ^ 64 - 1 messages have been produced, `Produce` adds its message to what an attached
  -- open consumer has to read; where that is more than the capacity, the oldest message is lost to it. Its
  -- channel then holds an item.
  pub produce-Awaits :
      (log : List A) (msg : A) (m : Memory A) (rc : ℕ) (rest : List A)
      → IsRing log m
      → Awaits log m rc rest
      → contains m.consumers rc ≡ true
      → length log + 1 < 2 ^ 64
      → (m' : Memory A) × (produce msg m ≡ ok m')
        × IsRing (log ++ msg ∷ []) m'
        × ((w : Awaits (log ++ msg ∷ []) m' rc (newest m.cap (rest ++ msg ∷ [])))
            × (w.consumer.pending ≡ true))
  produce-Awaits log msg m rc rest h w listed room =
      let (m', runs, h', reads, same, _) = produce-IsRing log msg m h room in
      (
        m',
        runs,
        h',
        (
          record {
            consumer = woken w.consumer;
            found = ground (arith, reads rc, w.found);
            ch_open = w.ch_open;
            is_open = w.is_open;
            behind = omega (arith, w.behind, length-append log (msg ∷ []));
            rest_is =
                ap (λ (cap : ℕ). unread (log ++ msg ∷ []) cap w.consumer.cur) same
                ∙ unread-append log (msg ∷ []) rest m.cap w.consumer.cur w.behind w.rest_is;
          },
          refl,
        ),
      )

  produce_all-IsRing :
      (log msgs : List A) (m : Memory A)
      → IsRing log m
      → length log + length msgs < 2 ^ 64
      → (m' : Memory A) × (produce_all msgs m ≡ ok m') × IsRing (log ++ msgs) m' × (m'.cap ≡ m.cap)
  unfolding produce_all
  produce_all-IsRing log [] m h room = (m, refl, rw append-nil h, refl)
  produce_all-IsRing log (msg ∷ msgs) m h room =
      let (m1, runs, h1, _, same, _) = produce-IsRing log msg m h (omega arith) in
      let (m2, later, h2, same') =
        produce_all-IsRing (log ++ msg ∷ []) msgs m1 h1
          (omega (arith, length-append log (msg ∷ []))) in
      (m2, ground (arith, runs, later), rw (append_assoc log (msg ∷ []) msgs) at h2, same' ∙ same)

  -- A client leaves, messages arrive, a client comes back with the sequence number and reads on.
  unfoldable pub come_back : ℕ → List A → ℕ → Memory A → Outcome (Option (List A) × Memory A)
  come_back rc msgs fuel m = do
    (seq, left) ← close rc m
    later ← produce_all msgs left
    (rc', back) ← new_consumer (some seq) later
    drain fuel rc' back

  come_back_runs :
      (rc fuel seq rc' : ℕ) (msgs out : List A) (m left later back m' : Memory A)
      → close rc m ≡ ok (seq, left)
      → produce_all msgs left ≡ ok later
      → new_consumer (some seq) later ≡ ok (rc', back)
      → drain fuel rc' back ≡ ok (some out, m')
      → come_back rc msgs fuel m ≡ ok (some out, m')
  unfolding come_back
  come_back_runs rc fuel seq rc' msgs out m left later back m' p q r s =
      rw p (rw q (rw r (rw s refl)))

  -- With fuel for a whole ring and fewer than 2 ^ 64 messages in all: when an open consumer is closed,
  -- messages are produced, and a consumer is made from the sequence number that the close returned, none
  -- of these calls panics, and the client then reads what it had not read and what has arrived, in order
  -- and without a repetition; of more than `cap` messages it reads the last `cap`.
  pub come_back_lem :
      (log msgs rest : List A) (m : Memory A) (rc fuel : ℕ)
      → IsRing log m
      → Awaits log m rc rest
      → length log + length msgs < 2 ^ 64
      → m.cap < fuel
      → (m' : Memory A) × (come_back rc msgs fuel m ≡ ok (some (newest m.cap (rest ++ msgs)), m'))
        × IsRing (log ++ msgs) m'
  come_back_lem log msgs rest m rc fuel h w room enough =
      let (seq, left, closes, h1, b, e, _, same1) = close_lem log m rc rest h w in
      let (later, runs, h2, same2) = produce_all-IsRing log msgs left h1 room in
      let (rc', back, opens, h3, (w3, _), _, same3) =
        new_consumer_lem (log ++ msgs) (some seq) later h2
          (omega (arith, length-append log msgs, b)) in
      let cap_is : later.cap ≡ m.cap = same2 ∙ same1 in
      let (m', drains, h4, _, _) = drain_lem (log ++ msgs) fuel back rc' _ h3 w3 (
        omega (
          arith,
          cap_is,
          length-drop (length (drop seq (log ++ msgs)) - later.cap) (drop seq (log ++ msgs)),
        )) in
      (
        m',
        come_back_runs rc fuel seq rc' msgs _ m left later back m' closes runs opens (
            drains
            ∙ ap (λ (out : List A). ok (some out, m'))
                (ap (λ (cap : ℕ). unread (log ++ msgs) cap seq) cap_is
                  ∙ unread-append log msgs rest m.cap seq b e)),
        h4,
      )
