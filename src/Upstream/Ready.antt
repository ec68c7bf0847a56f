-- ===== src/Upstream/Ready.antt =====
-- A connection that is open does not bring the program down.
use soju.Prelude.{
  ℕ, suc, ◌+◌, ◌^◌, ◌<◌, ◌≡◌, ◌≢◌, refl, ◌∙◌, false, List, [], ◌∷◌, ◌++◌, arith, length,
  length-append, All,
}
use native.Mathlib.Nat.{zero-add}
use soju.Irc.{Message, Command}
use soju.Irc.Result.{Result, ok, err, panic, Step}
use soju.Ring.Invariant.{IsRing}
use soju.Ring.Produce.{produce-IsRing}
use soju.Prelude.Text.{Str}
use soju.Irc.Params.{parse_message_params}
use soju.Upstream.{Env, World, ◌>>=◌}
use soju.Upstream.Total.{parse-safe}
use soju.Upstream.Handle.{
  produce_message, handle_privmsg, handle_command, handle_message, handle_all,
}
use soju.Upstream.Keeps.{IsConsistent, IsStable, Fine, Fine-run}
use soju.Upstream.ChannelsKeep.{IsSafe}
use soju.Upstream.Invariant.{handle_command-Keeps}

-- An open, consistent connection whose ring can take `n` more messages.
pub record IsReady (n : ℕ) (w : World) : Type 0 where
  pub consistent : IsConsistent w.conn
  pub is_open : w.conn.closed ≡ false
  pub log : List Message
  pub ring : IsRing log w.conn.ring
  pub room : length log + n < 2 ^ 64

IsReady-weaken : (n : ℕ) (w : World) → IsReady (suc n) w → IsReady n w
IsReady-weaken n w h = record {
  consistent = h.consistent;
  is_open = h.is_open;
  log = h.log;
  ring = h.ring;
  room = omega (arith, h.room);
}

stable : (n : ℕ) → IsStable (IsReady n) Unit
stable n = record {
  consistent = λ v h. h.consistent;
  change = λ v uc h core c. record {
    consistent = c;
    is_open = core.closed ∙ h.is_open;
    log = h.log;
    ring = rw core.ring h.ring;
    room = h.room;
  };
  visits = λ v f dcs h e. record {
    consistent = h.consistent;
    is_open = h.is_open;
    log = h.log;
    ring = h.ring;
    room = h.room;
  };
  is_open = λ q v h. h.is_open;
}

-- PRIVMSG takes one of the places of the ring's count.
produce_message_Ready :
    (n : ℕ) (msg : Message) (w : World)
    → IsReady (suc n) w
    → Fine (IsReady n) Unit (produce_message msg w)
unfolding produce_message
produce_message_Ready n msg w h =
    let (ring, runs, kept, _, _, _) =
      produce-IsRing h.log msg w.conn.ring h.ring (omega (arith, h.room)) in
    Fine-run (IsReady n) Unit {o = produce_message msg w}
      {o' = (ok tt, record w { conn = record w.conn { ring = ring } })} (ground arith)
      (
        record {
          consistent = record { named = h.consistent.named; started = h.consistent.started };
          is_open = h.is_open;
          log = h.log ++ msg ∷ [];
          ring = kept;
          room = omega (arith, h.room, length-append h.log (msg ∷ []));
        },
        λ q. λ x. cc,
      )

handle_privmsg_Ready :
    (n : ℕ) (env : Env) (msg : Message) (w : World)
    → IsReady (suc n) w
    → Fine (IsReady n) Unit (handle_privmsg env msg w)
unfolding handle_privmsg ◌>>=◌
handle_privmsg_Ready n env msg w h = go (parse_message_params env.text msg 2) refl
  where
    go :
        (r : Result (List Str))
        → parse_message_params env.text msg 2 ≡ r
        → Fine (IsReady n) Unit (handle_privmsg env msg w)
    go (ok out) e =
        Fine-run (IsReady n) Unit {o = handle_privmsg env msg w} {o' = produce_message msg w}
          (ground arith) (produce_message_Ready n msg w h)
    go (err x) e =
        Fine-run (IsReady n) Unit {o = handle_privmsg env msg w} {o' = (err x, w)} (ground arith)
          (IsReady-weaken n w h, λ q. λ y. cc)
    go panic e = absurd (parse-safe env.text msg 2 e)

handle_command_Ready :
    (n : ℕ) (env : Env) (cmd : Command) (msg : Message) (w : World)
    → IsSafe cmd msg
    → IsReady (suc n) w
    → Fine (IsReady n) Unit (handle_command env cmd msg w)
unfolding handle_command
handle_command_Ready n env Command.privmsg msg w safe h = handle_privmsg_Ready n env msg w h
handle_command_Ready n env cmd msg w safe h =
    (handle_command-Keeps (stable n) env cmd msg (λ q. safe) (λ e. absurd (cc))).at w
      (IsReady-weaken n w h)

-- A message that is safe for its handler does not panic on a connection that is open and consistent,
-- and whose ring has counted fewer than 2 ^ 64 - 1 messages; the connection is then so again, with room
-- for one message fewer.
pub handle_message_Ready :
    (n : ℕ) (env : Env) (msg : Message) (w : World)
    → IsSafe msg.command msg
    → IsReady (suc n) w
    → IsReady n (handle_message env msg w).1 × ((handle_message env msg w).0 ≢ panic)
unfolding handle_message
handle_message_Ready n env msg w safe h =
    let f = handle_command_Ready n env msg.command msg w safe h in (f.0, f.1 tt)

past_panic :
    (r : Result (Unit {0})) (C : Step World (Unit {0}) → Type 0) (x y : Step World (Unit {0}))
    → r ≢ panic
    → C x
    → C (elim r [ panic ↦ y | _ ↦ x ])
past_panic (ok a) C x y h c = c
past_panic (err e) C x y h c = c
past_panic panic C x y h c = absurd (h refl)

-- The loop of the user over the messages of an open, consistent connection ends without a panic, however
-- many of them are refused with an error, if each is safe for its handler and the ring's count has room
-- for them all and `n` more; the connection is then so again, with room for `n`.
pub handle_all_Ready :
    (n : ℕ) (env : Env) (msgs : List Message) (w : World)
    → All (λ msg. IsSafe msg.command msg) msgs
    → IsReady (length msgs + n) w
    → IsReady n (handle_all env msgs w).1 × ((handle_all env msgs w).0 ≡ ok tt)
unfolding handle_all
handle_all_Ready n env [] w safe h = (rw zero-add at h, refl)
handle_all_Ready n env (msg ∷ msgs) w safe h =
    let e : suc (length msgs) + n ≡ suc (length msgs + n) = omega arith in
    let (ready, calm) = handle_message_Ready (length msgs + n) env msg w safe.0 (rw e at h) in
    past_panic _ (λ o. IsReady n o.1 × (o.0 ≡ ok tt)) _ _ calm
      (handle_all_Ready n env msgs (handle_message env msg w).1 safe.1 ready)
