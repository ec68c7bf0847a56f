-- ===== src/Irc.antt =====
-- Messages, and the errors of a handler. A command is a value of `Command`: the program only compares
-- it with the names of its own source and with those of package gopkg.in/irc.v3, which a Go switch
-- keeps distinct; every other command is `other`.
pub mod Result
pub mod Action
pub mod Modes
pub mod Params
mod Tests
use soju.Prelude.{ℕ, Option, List}
use soju.Prelude.Text.{Str}

-- The constants of package irc.v3 that the program names.
pub data Reply : Type 0 where
  rpl_welcome rpl_yourhost rpl_created rpl_myinfo rpl_topic rpl_notopic rpl_namreply : Reply
  rpl_endofnames rpl_luserclient rpl_luserop rpl_luserunknown rpl_luserchannels rpl_luserme : Reply
  rpl_motdstart rpl_motd rpl_endofmotd rpl_statsvline rpl_statsbline rpl_statsdline : Reply
  rpl_channelmodeis rpl_umodeis err_unknowncommand err_needmoreparams err_passwdmismatch : Reply
  err_nosuchchannel err_nomotd err_alreadyregistered err_usersdontmatch : Reply

-- Commands by their names, the numerics that irc.go declares, and the two kinds above.
pub data Command : Type 0 where
  ping pong mode notice capability authenticate nick user pass join part quit topic privmsg :
      Command
  rpl_statsping rpl_localusers rpl_globalusers rpl_topicwhotime err_invalidcapcmd : Command
  rpl_loggedin rpl_loggedout err_nicklocked rpl_saslsuccess err_saslfail err_sasltoolong : Command
  err_saslaborted err_saslalready rpl_saslmechs : Command
  reply : Reply → Command
  other : Str → Command

pub record Prefix : Type 0 where
  pub name : Str
  pub user : Str
  pub host : Str

pub record Message : Type 0 where
  pub prefix : Option Prefix
  pub command : Command
  pub params : List Str
