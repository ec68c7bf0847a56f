-- ===== src/Upstream/Success.antt =====
-- When JOIN and PART succeed.
use soju.Prelude.{
  ℕ, ◌≡◌, refl, ap, ◌∙◌, Bool, true, false, none, some, List, [], ◌∷◌, arith, inl, inr, All, map,
}
use soju.Prelude.Text.{Str, str_eq}
use soju.Prelude.Strings.{split}
use soju.Prelude.Dict.{Dict, lookup, insert, delete, lookup-insert}
use soju.Irc.{Prefix, Message, Command}
use soju.Irc.Result.{ok, Step}
use soju.Conn.{UpstreamConn, UpstreamChannel, marshal_channel}
use soju.Upstream.{Env, World, Handler, ◌>>=◌}
use soju.Upstream.Broadcast.{broadcast_lem, told}
use soju.Upstream.Channels.{
  each_channel, join_channel, part_channel, handle_join, handle_part, from_user,
}
use soju.Upstream.Membership.{
  HasNick, Touches, with_members, changed, join_channel-Touches, part_channel-Touches,
}
use soju.Upstream.Tracking.{IsFrom, handle_join_run, handle_part_run, own_join_step, own_part_step}

-- Whether the connection has a channel.
abbrev pub is_known : UpstreamConn → Str → Bool
is_known uc name = elim (lookup name uc.channels) [ none ↦ false | some _ ↦ true ]

AllKnown-insert :
    (uc : UpstreamConn) (name : Str) (ch : UpstreamChannel) (names : List Str)
    → All (λ n. is_known uc n ≡ true) names
    → All (λ n. is_known (record uc { channels = insert name ch uc.channels }) n ≡ true) names
AllKnown-insert uc name ch [] h = tt
AllKnown-insert uc name ch (n ∷ names) h =
    (ground (arith, h.0, lookup-insert name n ch uc.channels), AllKnown-insert uc name ch names h.1)

each_channel_step :
    (change : Str → Handler (Unit {0})) (cmd : Command) (p : Prefix) (name : Str) (names : List Str)
    (w w1 : World)
    → change name w ≡ (ok tt, w1)
    → each_channel change cmd p (name ∷ names) w
      ≡ each_channel change cmd p names (record w1 {
        downstreams =
            map
              (told w1.conn.network_ref (from_user p cmd (marshal_channel name ∷ []) w1.conn))
              w1.downstreams;
      })
unfolding each_channel ◌>>=◌
each_channel_step change cmd p name names w w1 e =
    rw e (rw (broadcast_lem (from_user p cmd (marshal_channel name ∷ [])) w1) refl)

each_channel_succeeds :
    (f : Dict ℕ → Dict ℕ) (nick : Str) (change : Str → Handler (Unit {0}))
    → Touches f nick change
    → (cmd : Command) (p : Prefix) (names : List Str) (w : World) → HasNick nick w.conn
    → All (λ n. is_known w.conn n ≡ true) names
    → (each_channel change cmd p names w).0 ≡ ok tt
unfolding each_channel
each_channel_succeeds f nick change touches cmd p [] w n h = refl
each_channel_succeeds f nick change touches cmd p (name ∷ names) w n h = elim (touches name w n) [
  | inl (missing, run) ↦ absurd (ground (arith, missing, h.0))
  | inr (ch, found, run) ↦
      ap (λ (o : Step World (Unit {0})). o.0)
        (each_channel_step change cmd p name names w (with_members f name ch w) run)
      ∙ each_channel_succeeds f nick change touches cmd p names _ n
          (AllKnown-insert w.conn name (changed f ch) names h.1)
]

-- A JOIN, and a PART, that another user sent with a list of channels succeeds if the connection has all of
-- these channels.
pub handle_join_succeeds :
    (env : Env) (msg : Message) (p : Prefix) (names : Str) (w : World)
    → IsFrom p names msg
    → str_eq p.name w.conn.nick ≡ false
    → All (λ n. is_known w.conn n ≡ true) (split names b',')
    → ((handle_join env msg w).0 ≡ ok tt) × ((handle_part env msg w).0 ≡ ok tt)
handle_join_succeeds env msg p names w from other known = (
  rw (handle_join_run env msg p names w from) (
      each_channel_succeeds (insert p.name 0) w.conn.nick (join_channel p)
        (join_channel-Touches p w.conn.nick other) Command.join p (split names b',') w refl known),
  rw (handle_part_run env msg p names w from) (
      each_channel_succeeds (delete p.name) w.conn.nick (part_channel p)
        (part_channel-Touches p w.conn.nick other) Command.part p (split names b',') w refl known),
)

each_channel_own :
    (nick : Str) (change : Str → Handler (Unit {0}))
    → ((name : Str) (w : World)
        → nick ≡ w.conn.nick
        → (w1 : World) × (change name w ≡ (ok tt, w1)) × (nick ≡ w1.conn.nick))
    → (cmd : Command) (p : Prefix) (names : List Str) (w : World) → nick ≡ w.conn.nick
    → (each_channel change cmd p names w).0 ≡ ok tt
unfolding each_channel
each_channel_own nick change step cmd p [] w own = refl
each_channel_own nick change step cmd p (name ∷ names) w own =
    let (w1, run, own1) = step name w own in
    ap (λ (o : Step World (Unit {0})). o.0) (each_channel_step change cmd p name names w w1 run)
    ∙ each_channel_own nick change step cmd p names _ own1

-- Our own JOIN, and our own PART, with a list of channels always succeeds.
pub handle_join_own_succeeds :
    (env : Env) (msg : Message) (p : Prefix) (names : Str) (w : World)
    → IsFrom p names msg
    → p.name ≡ w.conn.nick
    → ((handle_join env msg w).0 ≡ ok tt) × ((handle_part env msg w).0 ≡ ok tt)
handle_join_own_succeeds env msg p names w from own = (
  rw (handle_join_run env msg p names w from) (
      each_channel_own p.name (join_channel p) (λ name v o. (_, own_join_step p name v o, o))
        Command.join p (split names b',') w own),
  rw (handle_part_run env msg p names w from) (
      each_channel_own p.name (part_channel p) (λ name v o. (_, own_part_step p name v o, o))
        Command.part p (split names b',') w own),
)
