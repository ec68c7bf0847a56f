-- ===== src/Upstream/Handle.antt =====
-- `handleMessage` of a server connection.
use soju.Prelude.{ℕ, Bool, true, false, Option, none, some, List, [], ◌∷◌}
use soju.Prelude
use soju.Irc.{Message, Command, Reply}
use soju.Irc.Result.{ok, panic}
use soju.Irc.Params.{parse_message_params}
use soju.Ring.{produce}
use soju.Upstream.{Env, Handler, finish, lift, send_message, command, ◌>>=◌}
use soju.Upstream.Broadcast.{broadcast}
use soju.Upstream.Registration.{handle_cap, handle_welcome, handle_myinfo}
use soju.Upstream.Authenticate.{handle_authenticate, handle_loggedin, handle_sasl_end}
use soju.Upstream.Channels.{
  handle_mode, handle_nick, handle_join, handle_part, handle_quit, handle_rpl_topic, handle_topic,
  handle_topicwhotime, handle_namreply, handle_endofnames,
}

unfoldable pub produce_message : Message → Handler (Unit {0})
produce_message msg w = elim (produce msg w.conn.ring) [
  | soju.Prelude.panic ↦ (panic, w)
  | soju.Prelude.ok ring ↦ (ok tt, record w { conn = record w.conn { ring = ring } })
]

unfoldable pub handle_privmsg : Env → Message → Handler (Unit {0})
handle_privmsg env msg = do out ← lift (parse_message_params env.text msg 2); produce_message msg

-- The constants of irc.v3 that the switch has a case for; the others are unhandled, and only logged.
unfoldable pub handle_reply : Env → Reply → Message → Handler (Unit {0})
handle_reply env Reply.rpl_welcome msg = handle_welcome env
handle_reply env Reply.rpl_myinfo msg = handle_myinfo env msg
handle_reply env Reply.rpl_topic msg = handle_rpl_topic env true msg
handle_reply env Reply.rpl_notopic msg = handle_rpl_topic env false msg
handle_reply env Reply.rpl_namreply msg = handle_namreply env msg
handle_reply env Reply.rpl_endofnames msg = handle_endofnames env msg
handle_reply env _ msg = finish

unfoldable pub handle_command : Env → Command → Message → Handler (Unit {0})
handle_command env Command.ping msg = send_message (command Command.pong msg.params)
handle_command env Command.mode msg = handle_mode env msg
handle_command env Command.notice msg = broadcast (λ uc dc. msg)
handle_command env Command.capability msg = handle_cap env msg
handle_command env Command.authenticate msg = handle_authenticate env msg
handle_command env Command.rpl_loggedin msg = handle_loggedin env msg
handle_command env Command.err_nicklocked msg = handle_sasl_end env msg
handle_command env Command.rpl_saslsuccess msg = handle_sasl_end env msg
handle_command env Command.err_saslfail msg = handle_sasl_end env msg
handle_command env Command.err_sasltoolong msg = handle_sasl_end env msg
handle_command env Command.err_saslaborted msg = handle_sasl_end env msg
handle_command env Command.nick msg = handle_nick env msg
handle_command env Command.join msg = handle_join env msg
handle_command env Command.part msg = handle_part env msg
handle_command env Command.quit msg = handle_quit msg
handle_command env Command.topic msg = handle_topic env msg
handle_command env Command.rpl_topicwhotime msg = handle_topicwhotime env msg
handle_command env Command.privmsg msg = handle_privmsg env msg
handle_command env (Command.reply r) msg = handle_reply env r msg
handle_command env _ msg = finish

unfoldable pub handle_message : Env → Message → Handler (Unit {0})
handle_message env msg = handle_command env msg.command msg

-- What `run` of user.go does with the messages of the connection: an error is logged, and the loop goes
-- on; a panic ends the program.
unfoldable pub handle_all : Env → List Message → Handler (Unit {0})
handle_all env [] w = (ok tt, w)
handle_all env (msg ∷ msgs) w =
    let (r, w') = handle_message env msg w in
    let rest = handle_all env msgs w' in elim r [ panic ↦ (panic, w') | _ ↦ rest ]
