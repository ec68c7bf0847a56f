-- ===== src/Irc/Params.antt =====
-- The parsers of irc.go, and the errors that downstream.go makes for them.
pub mod Status
use soju.Prelude.{
  ℕ, Bool, true, false, ◌||◌, Option, none, some, List, [], ◌∷◌, ◌==◌, ltb, if◌then◌else◌, length,
  get_or, take, contains,
}
use soju.Prelude.Text.{Str, codes}
use soju.Irc.{Message, Command, Reply}
use soju.Irc.Result.{Result, ok, err, panic, irc_error, long_channel_status, unknown_channel_status}

-- The text of a command; that of a constant of irc.v3 is the parameter.
unfoldable pub command_text : (Reply → Str) → Command → Str
command_text text Command.ping = codes "PING"
command_text text Command.pong = codes "PONG"
command_text text Command.mode = codes "MODE"
command_text text Command.notice = codes "NOTICE"
command_text text Command.capability = codes "CAP"
command_text text Command.authenticate = codes "AUTHENTICATE"
command_text text Command.nick = codes "NICK"
command_text text Command.user = codes "USER"
command_text text Command.pass = codes "PASS"
command_text text Command.join = codes "JOIN"
command_text text Command.part = codes "PART"
command_text text Command.quit = codes "QUIT"
command_text text Command.topic = codes "TOPIC"
command_text text Command.privmsg = codes "PRIVMSG"
command_text text Command.rpl_statsping = codes "246"
command_text text Command.rpl_localusers = codes "265"
command_text text Command.rpl_globalusers = codes "266"
command_text text Command.rpl_topicwhotime = codes "333"
command_text text Command.err_invalidcapcmd = codes "410"
command_text text Command.rpl_loggedin = codes "900"
command_text text Command.rpl_loggedout = codes "901"
command_text text Command.err_nicklocked = codes "902"
command_text text Command.rpl_saslsuccess = codes "903"
command_text text Command.err_saslfail = codes "904"
command_text text Command.err_sasltoolong = codes "905"
command_text text Command.err_saslaborted = codes "906"
command_text text Command.err_saslalready = codes "907"
command_text text Command.rpl_saslmechs = codes "908"
command_text text (Command.reply r) = text r
command_text text (Command.other s) = s

-- `newNeedMoreParamsError`
abbrev pub need_more_params : Str → Message
need_more_params cmd = record {
  prefix = none;
  command = Command.reply Reply.err_needmoreparams;
  params = codes "*" ∷ cmd ∷ codes "Not enough parameters" ∷ [];
}

-- `newUnknownCommandError`
abbrev pub unknown_command : Str → Message
unknown_command cmd = record {
  prefix = none;
  command = Command.reply Reply.err_unknowncommand;
  params = codes "*" ∷ cmd ∷ codes "Unknown command" ∷ [];
}

-- `parseMessageParams` with `n` pointers, nil or not: what they are set to. An error sets none.
unfoldable pub parse_message_params : (Reply → Str) → Message → ℕ → Result (List Str)
unfolding command_text
parse_message_params text msg n =
    if ltb (length msg.params) n
    then err (irc_error (need_more_params (command_text text msg.command)))
    else ok (take n msg.params)

-- The n-th of the parameters that were parsed.
abbrev pub param : List Str → ℕ → Str
param params n = get_or params n []

-- `channelPublic`, `channelSecret`, `channelPrivate`
abbrev pub channel_statuses : List ℕ
channel_statuses = b'=' ∷ b'@' ∷ b'*' ∷ []

-- `parseChannelStatus`; `s[0]` panics on an empty text.
unfoldable pub parse_channel_status : Str → Result ℕ
parse_channel_status [] = panic
parse_channel_status (c ∷ []) =
    if contains channel_statuses c then ok c else err (unknown_channel_status (c ∷ []))
parse_channel_status (c ∷ d ∷ s) = err (long_channel_status (c ∷ d ∷ s))

-- `stdMembershipPrefixes`, the values of `membership` but 0.
abbrev pub std_membership_prefixes : Str
std_membership_prefixes = codes "~&@%+"

-- `parseMembershipPrefix`; `s[0]` panics on an empty text.
unfoldable pub parse_membership_prefix : Str → Result (ℕ × Str)
parse_membership_prefix [] = panic
parse_membership_prefix (c ∷ s) =
    if contains std_membership_prefixes c then ok (c, s) else ok (0, c ∷ s)
