-- ===== src/Upstream/Tracking.antt =====
-- What the messages of a server do to the channels and memberships that the connection tracks.
use soju.Prelude.{
  ◌≡◌, refl, sym, ap, ◌∙◌, false, ◌&&◌, Option, none, some, List, ◌∷◌, if◌then◌else◌, arith,
}
use soju.Prelude.Text.{Str, str_eq, str_eq_iff}
use soju.Prelude.Strings.{split}
use soju.Prelude.Dict.{lookup, insert, delete, lookup-insert, lookup-delete}
use soju.Irc.{Prefix, Message, Command}
use soju.Irc.Result.{ok, Step}
use soju.Irc.Params.{parse_message_params}
use soju.Conn.{UpstreamChannel}
use soju.Upstream.{Env, World, Handler, ◌>>=◌}
use soju.Upstream.Channels.{
  join_channel, joined, part_channel, each_channel, handle_join, handle_part,
}
use soju.Upstream.Membership.{member, listed, each_channel_view, join-member, part-member}

-- A message of the user `p` whose first parameter is `first`.
pub record IsFrom (p : Prefix) (first : Str) (msg : Message) : Type 0 where
  pub sender : msg.prefix ≡ some p
  pub rest : List Str
  pub params : msg.params ≡ first ∷ rest

pub own_join_step :
    (p : Prefix) (name : Str) (w : World)
    → p.name ≡ w.conn.nick
    → join_channel p name w ≡ (
      ok tt,
      record w { conn = record w.conn { channels = insert name (joined name) w.conn.channels } },
    )
unfolding join_channel ◌>>=◌
own_join_step p name w own = ground (arith, str_eq_iff p.name w.conn.nick)

pub own_part_step :
    (p : Prefix) (name : Str) (w : World)
    → p.name ≡ w.conn.nick
    → part_channel p name w
      ≡ (ok tt, record w { conn = record w.conn { channels = delete name w.conn.channels } })
unfolding part_channel ◌>>=◌
own_part_step p name w own = ground (arith, str_eq_iff p.name w.conn.nick)

-- A step of the loop for ourselves sets what is held under one name.
abbrev OwnStep : Prefix → (Str → Handler (Unit {0})) → (Str → Option UpstreamChannel) → Type 0
OwnStep p change val =
    (name : Str) (w : World)
    → p.name ≡ w.conn.nick
    → (change name w).0 ≡ ok tt
    → (p.name ≡ (change name w).1.conn.nick)
      × ((k : Str)
          → lookup k (change name w).1.conn.channels
            ≡ (if str_eq name k then val k else lookup k w.conn.channels))

own_join : (p : Prefix) → OwnStep p (join_channel p) (λ k. some (joined k))
own_join p name w own e =
    let run = own_join_step p name w own in
    (
      own ∙ sym (ap (λ (o : Step World (Unit {0})). o.1.conn.nick) run),
      λ k.
          ap (λ (o : Step World (Unit {0})). lookup k o.1.conn.channels) run
          ∙ ground (arith, lookup-insert name k (joined name) w.conn.channels, str_eq_iff name k),
    )

own_part : (p : Prefix) → OwnStep p (part_channel p) (λ k. none)
own_part p name w own e =
    let run = own_part_step p name w own in
    (
      own ∙ sym (ap (λ (o : Step World (Unit {0})). o.1.conn.nick) run),
      λ k.
          ap (λ (o : Step World (Unit {0})). lookup k o.1.conn.channels) run
          ∙ lookup-delete name k w.conn.channels,
    )

module _ (env : Env) (msg : Message) (p : Prefix) (names : Str) (w : World)
    (from : IsFrom p names msg) where
  pub handle_join_run :
      handle_join env msg w ≡ each_channel (join_channel p) Command.join p (split names b',') w
  unfolding handle_join ◌>>=◌ parse_message_params
  handle_join_run = ground (arith, from.sender, from.params)

  pub handle_part_run :
      handle_part env msg w ≡ each_channel (part_channel p) Command.part p (split names b',') w
  unfolding handle_part ◌>>=◌ parse_message_params
  handle_part_run = ground (arith, from.sender, from.params)

  -- When a JOIN that another user sent with a list of channels has succeeded, that user is in each of
  -- them, without a membership prefix; every other membership in every channel is as it was.
  pub handle_join-member :
      (k q : Str)
      → str_eq p.name w.conn.nick ≡ false
      → (handle_join env msg w).0 ≡ ok tt
      → member (handle_join env msg w).1.conn k q
        ≡ (if listed k (split names b',') && str_eq p.name q then some 0 else member w.conn k q)
  handle_join-member k q other e =
      rw handle_join_run (join-member p (split names b',') w k q other (rw handle_join_run at e))

  -- When a PART that another user sent with a list of channels has succeeded, that user is in none of
  -- them; every other membership in every channel is as it was.
  pub handle_part-member :
      (k q : Str)
      → str_eq p.name w.conn.nick ≡ false
      → (handle_part env msg w).0 ≡ ok tt
      → member (handle_part env msg w).1.conn k q
        ≡ (if listed k (split names b',') && str_eq p.name q then none else member w.conn k q)
  handle_part-member k q other e =
      rw handle_part_run (part-member p (split names b',') w k q other (rw handle_part_run at e))

  -- When our own JOIN with a list of channels has succeeded, each of them is opened afresh, with no member
  -- and no topic, whatever was known of it; the other channels are as they were.
  pub handle_join-own :
      (k : Str)
      → p.name ≡ w.conn.nick
      → (handle_join env msg w).0 ≡ ok tt
      → lookup k (handle_join env msg w).1.conn.channels
        ≡ (if listed k (split names b',') then some (joined k) else lookup k w.conn.channels)
  handle_join-own k own e = rw handle_join_run (
      each_channel_view (λ uc name. lookup name uc.channels) (λ name x. some (joined name))
        (λ name x. refl) (λ uc. p.name ≡ uc.nick) (join_channel p) (own_join p) Command.join p
        (split names b',') w own (rw handle_join_run at e) k)

  -- When our own PART with a list of channels has succeeded, they are forgotten; the other channels are as
  -- they were.
  pub handle_part-own :
      (k : Str)
      → p.name ≡ w.conn.nick
      → (handle_part env msg w).0 ≡ ok tt
      → lookup k (handle_part env msg w).1.conn.channels
        ≡ (if listed k (split names b',') then none else lookup k w.conn.channels)
  handle_part-own k own e = rw handle_part_run (
      each_channel_view (λ uc name. lookup name uc.channels) (λ name x. none) (λ name x. refl)
        (λ uc. p.name ≡ uc.nick) (part_channel p) (own_part p) Command.part p (split names b',') w
        own (rw handle_part_run at e) k)
