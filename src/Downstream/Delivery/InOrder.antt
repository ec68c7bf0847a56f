-- ===== src/Downstream/Delivery/InOrder.antt =====
-- The loop over a ring sends a client what it has not read, in order, and nothing of its own.
use soju.Prelude.{
  ℕ, zero, suc, ◌+◌, ◌-◌, ◌<◌, ◌≡◌, refl, sym, ap, ◌∙◌, Bool, true, false, Option, some, List, [],
  ◌∷◌, ◌++◌, if◌then◌else◌, arith, Outcome, ok, length, append_assoc, append-nil, All, drop,
  length-drop,
}
use soju.Irc.{Message}
use soju.Ring.{Memory}
use soju.Ring.Invariant.{IsRing}
use soju.Ring.Consume.{Awaits}
use soju.Ring.Peek.{next_place}
use soju.Downstream.Delivery.{Writer, is_ours, forget, write_pending}
use soju.Downstream.Delivery.OneRound.{IsSayable, gone, stuck, write_next-Fate, idle_runs}

-- The messages, of which the first is at place `at` of connection `serial`, but those in `ours`.
unfoldable pub others : List (ℕ × ℕ) → ℕ → ℕ → List Message → List Message
others ours serial at [] = []
others ours serial at (msg ∷ msgs) =
    let rest = others ours serial (at + 1) msgs in
    if is_ours (serial, at) ours then rest else msg ∷ rest

is_ours-forget :
    (serial at later : ℕ) (ours : List (ℕ × ℕ))
    → at < later
    → is_ours (serial, later) (forget (serial, at) ours) ≡ is_ours (serial, later) ours
unfolding is_ours forget
is_ours-forget serial at later [] lt = refl
is_ours-forget serial at later (k ∷ ks) lt = ground (arith, is_ours-forget serial at later ks lt)

others-forget :
    (ours : List (ℕ × ℕ)) (serial at later : ℕ) (msgs : List Message)
    → at < later
    → others (forget (serial, at) ours) serial later msgs ≡ others ours serial later msgs
unfolding others
others-forget ours serial at later [] lt = refl
others-forget ours serial at later (msg ∷ msgs) lt = ground (
  arith,
  is_ours-forget serial at later ours lt,
  others-forget ours serial at (later + 1) msgs (omega (arith, lt)),
)

others-cons :
    (ours : List (ℕ × ℕ)) (serial at : ℕ) (msg : Message) (msgs : List Message)
    → others ours serial at (msg ∷ msgs)
      ≡ (if is_ours (serial, at) ours then [] else msg ∷ []) ++ others ours serial (at + 1) msgs
unfolding others
others-cons ours serial at msg msgs = ground arith

module _ (write : List Message → Message → Bool) (serial rc : ℕ) where
  -- How the loop ends: it has gone through `done` of what was to be read, and `left` is still there.
  pub record Delivered (log rest : List Message) (w : Writer)
      (outcome : Outcome (Option Bool × Writer)) : Type 0 where
    pub done : List Message
    pub left : List Message
    pub finished : Bool
    pub after : Writer
    pub split : rest ≡ done ++ left
    pub runs : outcome ≡ ok (some finished, after)
    pub written : after.written ≡ w.written ++ others w.ours serial (next_place log rest) done
    pub ring : IsRing log after.ring
    pub awaits : Awaits log after.ring rc left
    pub all_read : finished ≡ true → left ≡ []
    pub failed :
        finished ≡ false
        → (msg : Message) × (more : List Message) × (left ≡ msg ∷ more)
          × (write after.written msg ≡ false)

  next_place-suc :
      (log : List Message) (m : Memory Message) (msg : Message) (rest : List Message)
      → Awaits log m rc (msg ∷ rest)
      → next_place log (msg ∷ rest) + 1 ≡ next_place log rest
  next_place-suc log m msg rest w = omega (
    arith,
    ap length w.rest_is,
    length-drop w.consumer.cur log,
    length-drop (length (drop w.consumer.cur log) - m.cap) (drop w.consumer.cur log),
  )

  written-cons :
      (log : List Message) (m : Memory Message) (msg : Message) (rest done : List Message)
      (w w' : Writer)
      → Awaits log m rc (msg ∷ rest)
      → w'.ours ≡ forget (serial, next_place log (msg ∷ rest)) w.ours
      → w'.written
        ≡ w.written
          ++ (if is_ours (serial, next_place log (msg ∷ rest)) w.ours then [] else msg ∷ [])
      → w'.written ++ others w'.ours serial (next_place log rest) done
        ≡ w.written ++ others w.ours serial (next_place log (msg ∷ rest)) (msg ∷ done)
  written-cons log m msg rest done w w' awaits ours written =
      let here : ℕ = next_place log (msg ∷ rest) in
      let next : here + 1 ≡ next_place log rest = next_place-suc log m msg rest awaits in
      let first : List Message = if is_ours (serial, here) w.ours then [] else msg ∷ [] in
      let later : others w'.ours serial (next_place log rest) done
          ≡ others w.ours serial (here + 1) done =
        ap (λ (ks : List (ℕ × ℕ)). others ks serial (next_place log rest) done) ours
        ∙ others-forget w.ours serial here (next_place log rest) done (omega (arith, next))
        ∙ ap (λ (i : ℕ). others w.ours serial i done) (sym next) in
      ap (λ (xs : List Message). xs ++ others w'.ours serial (next_place log rest) done) written
      ∙ ap (λ (xs : List Message). (w.written ++ first) ++ xs) later
      ∙ append_assoc w.written first (others w.ours serial (here + 1) done)
      ∙ ap (λ (xs : List Message). w.written ++ xs) (sym (others-cons w.ours serial here msg done))

  -- With more fuel than there are messages to read, of which each is a PRIVMSG with a target, the loop ends. It has then written those
  -- that it has gone through, in the order in which they were produced, but those that the client's own connection put there; the
  -- consumer has still to read the rest. Nothing is left if no write failed, and else the message whose write failed comes first.
  pub write_pending-Delivered :
      (fuel : ℕ) (log rest : List Message) (w : Writer)
      → IsRing log w.ring
      → Awaits log w.ring rc rest
      → All IsSayable rest
      → length rest < fuel
      → Delivered log rest w (write_pending write serial rc fuel w)
  unfolding write_pending others
  write_pending-Delivered zero log rest w h awaits sayable lt = elim lt [ ]
  write_pending-Delivered (suc fuel) log [] w h awaits sayable lt = record {
    done = [];
    left = [];
    finished = true;
    after = w;
    split = refl;
    runs = ground (arith, idle_runs write serial rc log w h awaits);
    written = sym (append-nil w.written);
    ring = h;
    awaits = awaits;
    all_read = λ e. refl;
    failed = λ e. cc;
  }
  write_pending-Delivered (suc fuel) log (msg ∷ rest) w h awaits (here, later) lt =
      elim (write_next-Fate write serial rc log msg rest w h awaits here) [
        | gone w' runs h' awaits' ours written ↦
            let more : Delivered log rest w' (write_pending write serial rc fuel w') =
              write_pending-Delivered fuel log rest w' h' awaits' later (omega (arith, lt)) in
            record {
              done = msg ∷ more.done;
              left = more.left;
              finished = more.finished;
              after = more.after;
              split = ap (◌∷◌ msg) more.split;
              runs = ground (arith, runs, more.runs);
              written =
                  more.written
                  ∙ written-cons log w.ring msg rest more.done w w' awaits ours written;
              ring = more.ring;
              awaits = more.awaits;
              all_read = more.all_read;
              failed = more.failed;
            }
        | stuck w' runs h' awaits' written failed ↦ record {
          done = [];
          left = msg ∷ rest;
          finished = false;
          after = w';
          split = refl;
          runs = ground (arith, runs);
          written = written ∙ sym (append-nil w.written);
          ring = h';
          awaits = awaits';
          all_read = λ e. cc;
          failed = λ e. (msg, rest, refl, failed);
        }
      ]
