-- ===== src/Upstream/Users.antt =====
-- What QUIT and NICK do to the memberships, and what the clients are told.
use soju.Prelude.{
  ◌≡◌, ◌≢◌, refl, ap, fun_ext, ◌∙◌, false, none, some, [], ◌∷◌, if◌then◌else◌, arith, Option-cases,
  inl, inr, map,
}
use soju.Prelude.Text.{Str, str_eq, str_eq_iff}
use soju.Prelude.Dict.{lookup, delete, update_all, lookup-insert, lookup-delete, lookup-update_all}
use soju.Irc.{Prefix, Message, Command}
use soju.Irc.Result.{ok, Step}
use soju.Irc.Params.{parse_message_params}
use soju.Conn.{UpstreamChannel, UpstreamConn, DownstreamConn, marshal_user_prefix}
use soju.Upstream.{Env, World, ◌>>=◌}
use soju.Upstream.Broadcast.{broadcast_lem, told}
use soju.Upstream.Channels.{
  rename_member, change_nick, handle_nick, without_member, from_user, handle_quit,
}
use soju.Upstream.Membership.{member}
use soju.Upstream.Tracking.{IsFrom}

-- The connection after a QUIT.
abbrev emptied : Prefix → UpstreamConn → UpstreamConn
emptied p uc = record uc { channels = update_all (without_member p.name) uc.channels }

handle_quit_run :
    (msg : Message) (p : Prefix) (w : World)
    → msg.prefix ≡ some p
    → handle_quit msg w ≡ (
      ok tt,
      record w {
        conn = emptied p w.conn;
        downstreams =
            if str_eq p.name w.conn.nick
            then w.downstreams
            else map
                (told w.conn.network_ref (from_user p Command.quit msg.params (emptied p w.conn)))
                w.downstreams;
      },
    )
unfolding handle_quit ◌>>=◌
handle_quit_run msg p w sender = ground (
  arith,
  sender,
  broadcast_lem (from_user p Command.quit msg.params) (record w { conn = emptied p w.conn }),
)

-- A QUIT with a sender succeeds: it removes the user from every channel, and changes no other membership.
-- The clients that follow the network are told, and no others, unless the user is ourselves.
pub handle_quit-member :
    (msg : Message) (p : Prefix) (w : World)
    → msg.prefix ≡ some p
    → ((handle_quit msg w).0 ≡ ok tt)
      × ((k q : Str)
          → member (handle_quit msg w).1.conn k q
            ≡ (if str_eq p.name q then none else member w.conn k q))
      × ((handle_quit msg w).1.downstreams ≡ (
          if str_eq p.name w.conn.nick
          then w.downstreams
          else map
              (told w.conn.network_ref (from_user p Command.quit msg.params (emptied p w.conn)))
              w.downstreams))
handle_quit-member msg p w sender = rw (handle_quit_run msg p w sender) (
  refl,
  λ k q. elim (Option-cases (lookup k w.conn.channels)) [
    | inl missing ↦ ground (arith, lookup-update_all (without_member p.name) k w.conn.channels)
    | inr (ch, found) ↦ ground (
      arith,
      lookup-update_all (without_member p.name) k w.conn.channels,
      lookup-delete p.name q ch.members,
    )
  ],
  refl,
)

-- What `rename_member` does to the members of one channel.
lookup-rename_member :
    (old new : Str) (ch : UpstreamChannel) (q : Str)
    → lookup q (rename_member old new ch).members ≡ (elim (lookup old ch.members) [
      | none ↦ lookup q ch.members
      | some m ↦ if str_eq new q then some m else if str_eq old q then none else lookup q ch.members
    ])
unfolding rename_member
lookup-rename_member old new ch q = elim (Option-cases (lookup old ch.members)) [
  | inl missing ↦ ground (arith, missing)
  | inr (m, found) ↦
      ground (
        arith,
        found,
        lookup-insert new q m (delete old ch.members),
        lookup-delete old q ch.members,
      )
]

change_nick-member :
    (p : Prefix) (new : Str) (uc : UpstreamConn) (k q : Str)
    → member (change_nick p new uc) k q ≡ (elim (member uc k p.name) [
      | none ↦ member uc k q
      | some m ↦ if str_eq new q then some m else if str_eq p.name q then none else member uc k q
    ])
unfolding change_nick
change_nick-member p new uc k q = elim (Option-cases (lookup k uc.channels)) [
  | inl missing ↦ ground (arith, lookup-update_all (rename_member p.name new) k uc.channels)
  | inr (ch, found) ↦ ground (
    arith,
    found,
    lookup-update_all (rename_member p.name new) k uc.channels,
    lookup-rename_member p.name new ch q,
  )
]

module _ (env : Env) (msg : Message) (p : Prefix) (new : Str) (w : World)
    (from : IsFrom p new msg) where
  handle_nick_run : handle_nick env msg w ≡ (
    ok tt,
    record w {
      conn = change_nick p new w.conn;
      downstreams =
          if str_eq p.name (change_nick p new w.conn).nick
          then w.downstreams
          else map
              (told w.conn.network_ref
                (from_user p Command.nick (new ∷ []) (change_nick p new w.conn)))
              w.downstreams;
    },
  )
  unfolding handle_nick ◌>>=◌ parse_message_params
  handle_nick_run = ground (
    arith,
    from.sender,
    from.params,
    broadcast_lem (from_user p Command.nick (new ∷ []))
        (record w { conn = change_nick p new w.conn }),
  )

  -- A NICK with a sender and a new name succeeds. Whoever held the old name in a channel then holds the
  -- new name there, with the same membership prefix; the old name, unless it is the new one, is in no such
  -- channel, and every other membership is as it was. Our own nick follows exactly if it was the old name.
  pub handle_nick-member :
      ((handle_nick env msg w).0 ≡ ok tt)
      × ((handle_nick env msg w).1.conn.nick
          ≡ (if str_eq p.name w.conn.nick then new else w.conn.nick))
      × ((k q : Str)
          → member (handle_nick env msg w).1.conn k q ≡ (elim (member w.conn k p.name) [
            | none ↦ member w.conn k q
            | some m ↦
                if str_eq new q then some m else if str_eq p.name q then none else member w.conn k q
          ]))
  handle_nick-member = rw handle_nick_run (refl, nick_is, change_nick-member p new w.conn)
    where
      nick_is :
          (change_nick p new w.conn).nick ≡ (if str_eq p.name w.conn.nick then new else w.conn.nick)
      nick_is = unfold change_nick in refl

  -- Our own change to another nick is announced to every client that follows the network, and to no other,
  -- under the prefix that the server used, not under the client's own.
  pub handle_nick-own_told :
      p.name ≡ w.conn.nick
      → p.name ≢ new
      → (handle_nick env msg w).1.downstreams
        ≡ map
            (told w.conn.network_ref
              (λ dc. record { prefix = some p; command = Command.nick; params = new ∷ [] }))
            w.downstreams
  unfolding change_nick marshal_user_prefix
  handle_nick-own_told own ne =
      let away : str_eq p.name new ≡ false = ground (arith, str_eq_iff p.name new) in
      let moved : (change_nick p new w.conn).nick ≡ new =
        ground (arith, str_eq_iff p.name w.conn.nick) in
      let plain : (from_user p Command.nick (new ∷ []) (change_nick p new w.conn)) ≡ own_change =
        fun_ext λ dc. ground (arith, moved, ap (str_eq p.name) moved, away) in
      let skip : str_eq p.name (change_nick p new w.conn).nick ≡ false =
        ap (str_eq p.name) moved ∙ away in
      ap (λ (o : Step World (Unit {0})). o.1.downstreams) handle_nick_run
      ∙ rw skip (
          ap (λ (g : DownstreamConn → Message). map (told w.conn.network_ref g) w.downstreams)
            plain)
    where
      own_change : DownstreamConn → Message
      own_change dc = record { prefix = some p; command = Command.nick; params = new ∷ [] }
