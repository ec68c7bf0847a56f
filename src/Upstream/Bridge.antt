-- ===== src/Upstream/Bridge.antt =====
-- bridge.go: `forwardChannel` tells a client of a channel.
use soju.Prelude.{ℕ, not, some, List, [], ◌∷◌, ◌++◌, ◌==◌, if◌then◌else◌}
use soju.Prelude.Text.{Str, codes, str_eq}
use soju.Prelude.Dict.{Dict}
use soju.Irc.{Message, Command, Reply}
use soju.Irc.Result.{Result, ok, panic}
use soju.Conn.{
  UpstreamChannel, UpstreamConn, DownstreamConn, client_prefix, server_prefix, marshal_channel,
  marshal_nick,
}

module _ (hostname : Str) (dc : DownstreamConn) (uc : UpstreamConn) (ch : UpstreamChannel) where
  abbrev pub from_server : Reply → List Str → Message
  from_server r params = record {
    prefix = some (server_prefix hostname);
    command = Command.reply r;
    params = params;
  }

  abbrev pub name_reply : Str → ℕ → Message
  name_reply nick membership =
      let s = marshal_nick dc uc nick in
      let s' : Str = if not (membership == 0) then membership ∷ s else s in
      from_server Reply.rpl_namreply
        (dc.nick ∷ (ch.status ∷ []) ∷ marshal_channel ch.name ∷ s' ∷ [])

  unfoldable pub name_replies : Dict ℕ → List Message
  name_replies [] = []
  name_replies ((nick, membership) ∷ members) = name_reply nick membership ∷ name_replies members

  -- The messages that a client gets, in order.
  unfoldable pub channel_messages : List Message
  unfolding name_replies
  channel_messages =
      record {
        prefix = some (client_prefix dc);
        command = Command.join;
        params = marshal_channel ch.name ∷ [];
      }
      ∷ (if not (str_eq ch.topic [])
          then from_server Reply.rpl_topic (dc.nick ∷ marshal_channel ch.name ∷ ch.topic ∷ [])
          else from_server Reply.rpl_notopic
              (dc.nick ∷ marshal_channel ch.name ∷ codes "No topic is set" ∷ []))
      ∷ (name_replies ch.members
          ++ from_server Reply.rpl_endofnames
              (dc.nick ∷ marshal_channel ch.name ∷ codes "End of /NAMES list" ∷ [])
            ∷ [])

  unfoldable pub forward_channel : Result DownstreamConn
  unfolding channel_messages
  forward_channel =
      if not ch.complete
      then panic
      else ok (record dc { outgoing = dc.outgoing ++ channel_messages })
