-- ===== src/Upstream/Channels.antt =====
-- The messages about channels, their members and modes.
use soju.Prelude.{
  Bool, true, false, not, Option, none, some, List, [], ◌∷◌, if◌then◌else◌, ltb, length, get_or,
}
use soju.Prelude.Text.{Str, str_eq}
use soju.Prelude.Dict.{lookup, insert, delete, update_all}
use soju.Prelude.Strings.{split}
use soju.Prelude.Int.{parse_int}
use soju.Irc.{Prefix, Message, Command}
use soju.Irc.Result.{
  Result, ok, panic, missing_prefix, unknown_nick, unknown_channel, bad_topic_time,
  unexpected_endofnames,
}
use soju.Irc.Modes
use soju.Irc.Params.{parse_message_params, param, parse_channel_status, parse_membership_prefix}
use soju.Conn.{
  UpstreamChannel, UpstreamConn, DownstreamConn, deliver, marshal_channel, marshal_user_prefix,
}
use soju.Upstream.{Env, Handler, finish, lift, fail, conn, modify, pure, ◌>>=◌, ◌>>◌}
use soju.Upstream.Bridge.{forward_channel}
use soju.Upstream.Broadcast.{for_each_downstream, broadcast}

unfoldable pub get_channel : Str → Handler UpstreamChannel
get_channel name = do
  uc ← conn
  elim (lookup name uc.channels) [ none ↦ fail (unknown_channel name) | some ch ↦ pure ch ]

-- A write through the pointer that the map holds under `name`.
abbrev pub put_channel : Str → UpstreamChannel → Handler (Unit {0})
put_channel name ch = modify (λ uc. record uc { channels = insert name ch uc.channels })

abbrev pub with_prefix : Message → (Prefix → Handler (Unit {0})) → Handler (Unit {0})
with_prefix msg f = elim msg.prefix [ none ↦ fail missing_prefix | some p ↦ f p ]

-- A message of a user, as each client sees it.
abbrev pub from_user : Prefix → Command → List Str → UpstreamConn → DownstreamConn → Message
from_user p cmd params uc dc = record {
  prefix = some (marshal_user_prefix dc uc p);
  command = cmd;
  params = params;
}

unfoldable pub set_user_modes : Str → Handler (Unit {0})
set_user_modes s w =
    let (r, ms) = Modes.apply w.conn.modes s in
    (r, record w { conn = record w.conn { modes = ms } })

unfoldable pub set_channel_modes : Str → UpstreamChannel → Str → Handler (Unit {0})
set_channel_modes name ch s w =
    let (r, ms) = Modes.apply ch.modes s in
    (
      r,
      record w {
        conn = record w.conn { channels = insert name (record ch { modes = ms }) w.conn.channels };
      },
    )

unfoldable pub user_mode : Str → Str → Handler (Unit {0})
user_mode name mode_str = do
  uc ← conn
  if not (str_eq name uc.nick) then fail (unknown_nick name) else set_user_modes mode_str

unfoldable pub channel_mode : Prefix → Str → Str → Handler (Unit {0})
channel_mode p name mode_str = do
  ch ← get_channel name
  set_channel_modes name ch mode_str
  broadcast (from_user p Command.mode (marshal_channel name ∷ mode_str ∷ []))

unfoldable pub handle_mode : Env → Message → Handler (Unit {0})
handle_mode env msg = with_prefix msg (λ p. do
  out ← lift (parse_message_params env.text msg 2)
  if str_eq (param out 0) p.name
      then user_mode (param out 0) (param out 1)
      else channel_mode p (param out 0) (param out 1))

unfoldable pub rename_member : Str → Str → UpstreamChannel → UpstreamChannel
rename_member old new ch = elim (lookup old ch.members) [
  | none ↦ ch
  | some membership ↦ record ch { members = insert new membership (delete old ch.members) }
]

unfoldable pub change_nick : Prefix → Str → UpstreamConn → UpstreamConn
unfolding rename_member
change_nick p new uc = record uc {
  nick = if str_eq p.name uc.nick then new else uc.nick;
  channels = update_all (rename_member p.name new) uc.channels;
}

unfoldable pub handle_nick : Env → Message → Handler (Unit {0})
unfolding change_nick
handle_nick env msg = with_prefix msg (λ p. do
  out ← lift (parse_message_params env.text msg 1)
  modify (change_nick p (param out 0))
  uc ← conn
  if not (str_eq p.name uc.nick)
      then broadcast (from_user p Command.nick (param out 0 ∷ []))
      else finish)

-- A channel that we have just joined.
abbrev pub joined : Str → UpstreamChannel
joined name = record {
  name = name;
  topic = [];
  topic_who = [];
  topic_time = none;
  status = 0;
  modes = [];
  members = [];
  complete = false;
}

unfoldable pub join_channel : Prefix → Str → Handler (Unit {0})
join_channel p name = do
  uc ← conn
  if str_eq p.name uc.nick then put_channel name (joined name) else (do
    ch ← get_channel name
    put_channel name (record ch { members = insert p.name 0 ch.members }))

unfoldable pub part_channel : Prefix → Str → Handler (Unit {0})
part_channel p name = do
  uc ← conn
  if str_eq p.name uc.nick
      then modify (λ c. record c { channels = delete name c.channels })
      else (do
        ch ← get_channel name
        put_channel name (record ch { members = delete p.name ch.members }))

-- The loop of JOIN and of PART over the channels of the message.
unfoldable pub each_channel :
    (Str → Handler (Unit {0})) → Command → Prefix → List Str → Handler (Unit {0})
each_channel change cmd p [] = finish
each_channel change cmd p (name ∷ names) = do
  change name
  broadcast (from_user p cmd (marshal_channel name ∷ []))
  each_channel change cmd p names

unfoldable pub handle_join : Env → Message → Handler (Unit {0})
handle_join env msg = with_prefix msg (λ p. do
  out ← lift (parse_message_params env.text msg 1)
  each_channel (join_channel p) Command.join p (split (param out 0) b','))

unfoldable pub handle_part : Env → Message → Handler (Unit {0})
handle_part env msg = with_prefix msg (λ p. do
  out ← lift (parse_message_params env.text msg 1)
  each_channel (part_channel p) Command.part p (split (param out 0) b','))

abbrev pub without_member : Str → UpstreamChannel → UpstreamChannel
without_member nick ch = record ch { members = delete nick ch.members }

unfoldable pub handle_quit : Message → Handler (Unit {0})
handle_quit msg = with_prefix msg (λ p. do
  modify (λ uc. record uc { channels = update_all (without_member p.name) uc.channels })
  uc ← conn
  if not (str_eq p.name uc.nick) then broadcast (from_user p Command.quit msg.params) else finish)

unfoldable pub handle_rpl_topic : Env → Bool → Message → Handler (Unit {0})
handle_rpl_topic env is_topic msg = do
  out ← lift (parse_message_params env.text msg 3)
  ch ← get_channel (param out 1)
  put_channel (param out 1) (record ch { topic = if is_topic then param out 2 else [] })

-- A nil prefix is dereferenced for each client.
abbrev pub announce_topic :
    Option Prefix → List Str → UpstreamConn → DownstreamConn → Result DownstreamConn
announce_topic none params uc dc = panic
announce_topic (some p) params uc dc = ok (deliver (from_user p Command.topic params uc dc) dc)

unfoldable pub handle_topic : Env → Message → Handler (Unit {0})
handle_topic env msg = do
  out ← lift (parse_message_params env.text msg 1)
  ch ← get_channel (param out 0)
  let topic : Str = if ltb 1 (length msg.params) then get_or msg.params 1 [] else []
  put_channel (param out 0) (record ch { topic = topic })
  let params : List Str = if not (str_eq topic []) then topic ∷ [] else []
  for_each_downstream (announce_topic msg.prefix (marshal_channel (param out 0) ∷ params))

unfoldable pub handle_topicwhotime : Env → Message → Handler (Unit {0})
handle_topicwhotime env msg = do
  out ← lift (parse_message_params env.text msg 4)
  ch ← get_channel (param out 1)
  put_channel (param out 1) (record ch { topic_who = param out 2 })
  elim (parse_int (param out 3)) [
    | none ↦ fail bad_topic_time
    | some sec ↦
        put_channel (param out 1) (record ch { topic_who = param out 2; topic_time = some sec })
  ]

unfoldable pub add_members : Str → List Str → Handler (Unit {0})
add_members name [] = finish
add_members name (s ∷ rest) = do
  (membership, nick) ← lift (parse_membership_prefix s)
  ch ← get_channel name
  put_channel name (record ch { members = insert nick membership ch.members })
  add_members name rest

unfoldable pub handle_namreply : Env → Message → Handler (Unit {0})
handle_namreply env msg = do
  out ← lift (parse_message_params env.text msg 4)
  ch ← get_channel (param out 2)
  status ← lift (parse_channel_status (param out 1))
  put_channel (param out 2) (record ch { status = status })
  add_members (param out 2) (split (param out 3) 32)

unfoldable pub handle_endofnames : Env → Message → Handler (Unit {0})
handle_endofnames env msg = do
  out ← lift (parse_message_params env.text msg 2)
  ch ← get_channel (param out 1)
  if ch.complete then fail unexpected_endofnames else (do
    put_channel (param out 1) (record ch { complete = true })
    for_each_downstream
        (λ uc dc. forward_channel env.hostname dc uc (record ch { complete = true })))
