-- ===== src/Downstream/Delivery/OneRound.antt =====
-- One round of the loop over a ring, from what the ring holds.
use soju.Prelude.{
  ℕ, ◌≡◌, inl, inr, refl, sym, ap, ◌∙◌, Bool, true, false, some, List, [], ◌∷◌, ◌++◌, if◌then◌else◌,
  arith, ok, get_elem?, append-nil, Bool-cases,
}
use soju.Irc.{Message}
use soju.Ring.{RingConsumer, Memory, peek, consume}
use soju.Ring.Invariant.{IsRing}
use soju.Ring.Consume.{Awaits, consume-cons}
use soju.Ring.Peek.{next_place, peek-cons, peek-nil}
use soju.Downstream.Delivery.{
  Writer, Round, is_ours, forget, to_write, pass_on, skip, offer, write_next,
}

-- A PRIVMSG with a target.
abbrev pub IsSayable : Message → Type 0
IsSayable msg = to_write msg ≡ ok msg

module _ (write : List Message → Message → Bool) (serial rc : ℕ) where
  -- One round, where there is a message: it is read and written unless it is ours, or its write fails and it stays.
  pub data Fate (log : List Message) (msg : Message) (rest : List Message) (w : Writer)
      : Type 0 where
    gone :
        (w' : Writer)
        → write_next write serial rc w ≡ ok (Round.passed, w')
        → IsRing log w'.ring
        → Awaits log w'.ring rc rest
        → w'.ours ≡ forget (serial, next_place log (msg ∷ rest)) w.ours
        → w'.written
          ≡ w.written
            ++ (if is_ours (serial, next_place log (msg ∷ rest)) w.ours then [] else msg ∷ [])
        → Fate log msg rest w
    stuck :
        (w' : Writer)
        → write_next write serial rc w ≡ ok (Round.broken, w')
        → IsRing log w'.ring
        → Awaits log w'.ring rc (msg ∷ rest)
        → w'.written ≡ w.written
        → write w'.written msg ≡ false
        → Fate log msg rest w

  skip_runs :
      (w : Writer) (msg : Message) (m1 m2 : Memory Message) (c : RingConsumer)
      → peek rc w.ring ≡ ok (some msg, m1)
      → get_elem? m1.heap rc ≡ some c
      → consume rc m1 ≡ ok (some msg, m2)
      → is_ours (serial, c.cur) w.ours ≡ true
      → write_next write serial rc w
        ≡ ok (Round.passed, record w { ours = forget (serial, c.cur) w.ours; ring = m2 })
  unfolding write_next offer skip
  skip_runs w msg m1 m2 c peeked found consumed own = ground arith

  pass_runs :
      (w : Writer) (msg : Message) (m1 m2 : Memory Message) (c : RingConsumer)
      → peek rc w.ring ≡ ok (some msg, m1)
      → get_elem? m1.heap rc ≡ some c
      → consume rc m1 ≡ ok (some msg, m2)
      → is_ours (serial, c.cur) w.ours ≡ false
      → to_write msg ≡ ok msg
      → write w.written msg ≡ true
      → write_next write serial rc w
        ≡ ok (
          Round.passed,
          record w {
            ours = forget (serial, c.cur) w.ours;
            ring = m2;
            written = w.written ++ msg ∷ [];
          },
        )
  unfolding write_next offer pass_on
  pass_runs w msg m1 m2 c peeked found consumed foreign sayable written = ground arith

  stay_runs :
      (w : Writer) (msg : Message) (m1 : Memory Message) (c : RingConsumer)
      → peek rc w.ring ≡ ok (some msg, m1)
      → get_elem? m1.heap rc ≡ some c
      → is_ours (serial, c.cur) w.ours ≡ false
      → to_write msg ≡ ok msg
      → write w.written msg ≡ false
      → write_next write serial rc w
        ≡ ok (Round.broken, record w { ours = forget (serial, c.cur) w.ours; ring = m1 })
  unfolding write_next offer pass_on
  stay_runs w msg m1 c peeked found foreign sayable failed = ground arith

  pub write_next-Fate :
      (log : List Message) (msg : Message) (rest : List Message) (w : Writer)
      → IsRing log w.ring
      → Awaits log w.ring rc (msg ∷ rest)
      → IsSayable msg
      → Fate log msg rest w
  write_next-Fate log msg rest w h awaits sayable =
      let (m1, c, peeked, h1, awaits1, found, place) = peek-cons log w.ring rc msg rest h awaits in
      let (m2, consumed, h2, awaits2, _) = consume-cons log m1 rc msg rest h1 awaits1 in
      let key : c.cur ≡ next_place log (msg ∷ rest) = place in
      let forgotten : forget (serial, c.cur) w.ours
          ≡ forget (serial, next_place log (msg ∷ rest)) w.ours =
        ap (λ (i : ℕ). forget (serial, i) w.ours) key in
      elim (Bool-cases (is_ours (serial, c.cur) w.ours)) [
        | inl own ↦
            gone (record w { ours = forget (serial, c.cur) w.ours; ring = m2 })
              (skip_runs w msg m1 m2 c peeked found consumed own) h2 awaits2 forgotten
              (sym (append-nil w.written)
                ∙ ap (◌++◌ w.written)
                    (kept true (sym (ap (λ (i : ℕ). is_ours (serial, i) w.ours) key) ∙ own)))
        | inr foreign ↦ elim (Bool-cases (write w.written msg)) [
          | inl written ↦
              gone
                (record w {
                  ours = forget (serial, c.cur) w.ours;
                  ring = m2;
                  written = w.written ++ msg ∷ [];
                })
                (pass_runs w msg m1 m2 c peeked found consumed foreign sayable written) h2 awaits2
                forgotten
                (ap (◌++◌ w.written)
                  (kept false (sym (ap (λ (i : ℕ). is_ours (serial, i) w.ours) key) ∙ foreign)))
          | inr failed ↦
              stuck (record w { ours = forget (serial, c.cur) w.ours; ring = m1 })
                (stay_runs w msg m1 c peeked found foreign sayable failed) h1 awaits1 refl failed
        ]
      ]
    where
      kept :
          (b : Bool)
          → is_ours (serial, next_place log (msg ∷ rest)) w.ours ≡ b
          → (if b then [] else msg ∷ [])
            ≡ (if is_ours (serial, next_place log (msg ∷ rest)) w.ours then [] else msg ∷ [])
      kept b e = ap (λ (x : Bool). if x then [] else msg ∷ []) (sym e)

  pub idle_runs :
      (log : List Message) (w : Writer)
      → IsRing log w.ring
      → Awaits log w.ring rc []
      → write_next write serial rc w ≡ ok (Round.idle, w)
  unfolding write_next offer
  idle_runs log w h awaits = ground (arith, peek-nil log w.ring rc h awaits)
