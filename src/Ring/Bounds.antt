-- ===== src/Ring/Bounds.antt =====
-- How much a ring keeps, and how far a reader that stays attached can fall behind.
use soju.Prelude.{
  ℕ, ◌+◌, ◌-◌, ◌^◌, ◌≤◌, ◌<◌, ◌≡◌, refl, sym, subst, ap, ◌∙◌, true, Option, some, List, [], ◌∷◌,
  ◌++◌, append-nil, append_assoc, arith, Outcome, ok, ◌>>=◌, length, contains, length-append,
  length-drop, drop,
}
use soju.Ring.{Ring, Memory, drain}
use soju.Ring.Invariant.{IsRing}
use soju.Ring.Produce.{produce-IsRing}
use soju.Ring.Consume.{Awaits, newest, drain_lem}
use soju.Ring.Resume.{newest-newest, produce-Awaits, produce_all}

module _ {A : Type 0} where
  ok_inj : {a b : Memory A} → ok a ≡ ok b → a ≡ b
  ok_inj e = cc

  -- What a reader awaits fits into the ring.
  newest-awaited :
      (log rest : List A) (m : Memory A) (rc : ℕ)
      → Awaits log m rc rest
      → newest m.cap (rest ++ []) ≡ rest
  newest-awaited log rest m rc w =
      ap (λ (r : List A). newest m.cap (r ++ [])) (sym w.rest_is)
      ∙ newest-newest m.cap (drop w.consumer.cur log) []
      ∙ ap (newest m.cap) (append-nil (drop w.consumer.cur log))
      ∙ w.rest_is

  produce_all-Awaits :
      (log msgs rest : List A) (m : Memory A) (rc : ℕ)
      → IsRing log m
      → Awaits log m rc rest
      → contains m.consumers rc ≡ true
      → length log + length msgs < 2 ^ 64
      → (m' : Memory A) × (produce_all msgs m ≡ ok m')
        × IsRing (log ++ msgs) m'
        × (m'.cap ≡ m.cap)
        × Awaits (log ++ msgs) m' rc (newest m.cap (rest ++ msgs))
  unfolding produce_all
  produce_all-Awaits log [] rest m rc h w listed room =
      (m, refl, rw append-nil h, refl, rw (append-nil log, newest-awaited log rest m rc w) w)
  produce_all-Awaits log (msg ∷ msgs) rest m rc h w listed room =
      let (_, alone, _, _, same, kept) = produce-IsRing log msg m h (omega arith) in
      let (m1, runs, h1, (w1, _)) = produce-Awaits log msg m rc rest h w listed (omega arith) in
      let same1 : m1.cap ≡ m.cap =
        ap (λ (x : Memory A). x.cap) (ok_inj (sym runs ∙ alone)) ∙ same in
      let kept1 : m1.consumers ≡ m.consumers =
        ap (λ (x : Memory A). x.consumers) (ok_inj (sym runs ∙ alone)) ∙ kept in
      let (m2, later, h2, same2, w2) =
        produce_all-Awaits (log ++ msg ∷ []) msgs (newest m.cap (rest ++ msg ∷ [])) m1 rc h1 w1
          (rw kept1 listed) (omega (arith, length-append log (msg ∷ []))) in
      let awaited : newest m1.cap (newest m.cap (rest ++ msg ∷ []) ++ msgs)
          ≡ newest m.cap (rest ++ msg ∷ msgs) =
        ap (λ (cap : ℕ). newest cap (newest m.cap (rest ++ msg ∷ []) ++ msgs)) same1
        ∙ newest-newest m.cap (rest ++ msg ∷ []) msgs
        ∙ ap (newest m.cap) (append_assoc rest (msg ∷ []) msgs) in
      (
        m2,
        ground (arith, runs, later),
        rw (append_assoc log (msg ∷ []) msgs) at h2,
        same2 ∙ same1,
        subst (λ (l : List A). Awaits l m2 rc (newest m.cap (rest ++ msg ∷ msgs)))
            (append_assoc log (msg ∷ []) msgs)
            (subst (Awaits ((log ++ msg ∷ []) ++ msgs) m2 rc) awaited w2),
      )

  -- Messages are produced, and a reader that has stayed attached reads on.
  unfoldable pub catch_up : ℕ → List A → ℕ → Memory A → Outcome (Option (List A) × Memory A)
  catch_up rc msgs fuel m = do later ← produce_all msgs m; drain fuel rc later

  catch_up_runs :
      (rc fuel : ℕ) (msgs out : List A) (m later m' : Memory A)
      → produce_all msgs m ≡ ok later
      → drain fuel rc later ≡ ok (some out, m')
      → catch_up rc msgs fuel m ≡ ok (some out, m')
  unfolding catch_up
  catch_up_runs rc fuel msgs out m later m' p q = rw p (rw q refl)

  -- With fuel for a whole ring and fewer than 2 ^ 64 messages in all: however many messages are produced while an attached open
  -- consumer does not read, no call panics, the ring keeps the places it has, and its counter has passed each message once. The
  -- consumer then reads the last of what it had not read and what has arrived, at most `cap` messages, and all of it where there are no
  -- more than that; it has then nothing to read.
  pub catch_up-bounded :
      (log msgs rest : List A) (m : Memory A) (rc fuel : ℕ)
      → IsRing log m
      → Awaits log m rc rest
      → contains m.consumers rc ≡ true
      → length log + length msgs < 2 ^ 64
      → m.cap < fuel
      → (out : List A) × (m' : Memory A) × (catch_up rc msgs fuel m ≡ ok (some out, m'))
        × (out ≡ newest m.cap (rest ++ msgs))
        × (length out ≤ m.cap)
        × (length rest + length msgs ≤ m.cap → out ≡ rest ++ msgs)
        × (length m'.buffer ≡ length m.buffer)
        × (m'.cur ≡ m.cur + length msgs)
        × Awaits (log ++ msgs) m' rc []
  catch_up-bounded log msgs rest m rc fuel h w listed room enough =
      let (later, runs, h1, same1, w1) = produce_all-Awaits log msgs rest m rc h w listed room in
      let out : List A = newest m.cap (rest ++ msgs) in
      let short : length out ≤ m.cap =
        omega (arith, length-drop (length (rest ++ msgs) - m.cap) (rest ++ msgs)) in
      let (m', drains, h2, w2, kept) =
        drain_lem (log ++ msgs) fuel later rc out h1 w1 (omega (arith, short)) in
      (
        out,
        m',
        catch_up_runs rc fuel msgs out m later m' runs drains,
        refl,
        short,
        λ fits.
            ap (λ (n : ℕ). drop n (rest ++ msgs))
              (let none : length (rest ++ msgs) - m.cap ≡ 0 =
                  omega (arith, fits, length-append rest msgs) in
                none),
        h2.size ∙ ap (λ (r : Ring A). r.cap) kept ∙ same1 ∙ sym h.size,
        omega (arith, h2.cursor, h.cursor, length-append log msgs),
        w2,
      )
