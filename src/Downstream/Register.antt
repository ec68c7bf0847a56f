-- ===== src/Downstream/Register.antt =====
-- `register`, and the messages of a client that is not registered.

use soju.Prelude.{
  ℕ, Bool, true, false, not, ◌&&◌, Option, none, some, List, [], ◌∷◌, ◌++◌, ◌==◌, if◌then◌else◌,
  length, drop, Outcome,
}
use soju.Prelude
use soju.Prelude.Text.{Str, codes, str_eq}
use soju.Prelude.Dict.{Dict, lookup}
use soju.Irc.{Message, Command, Reply}
use soju.Irc.Result
use soju.Irc.Result.{Result, ok, err, panic, irc_error}
use soju.Irc.Action.{finish, lift, fail, get, ◌>>=◌, ◌>>◌}
use soju.Irc.Params.{parse_message_params, param, command_text, unknown_command}
use soju.Ring.{new_consumer}
use soju.Conn.{UpstreamChannel, UpstreamConn, DownstreamConn}
use soju.User.{Net}
use soju.Upstream.Bridge.{forward_channel}
use soju.Downstream.Names.{unmarshal_username}
use soju.Downstream.Routing.{is_visited}
use soju.Downstream.Registered.{cap}
use soju.Downstream.Session.{Outside, Handler, modify_client, notice, the_user, put_user}
use soju.Downstream.Unregistered.{authenticate, set_network, handle_sasl}

-- The channels that are complete, shown to the client in order.
unfoldable pub forward_all :
    Str → UpstreamConn → Dict UpstreamChannel → DownstreamConn → Result DownstreamConn
forward_all hostname uc [] dc = ok dc
forward_all hostname uc ((_, ch) ∷ chs) dc =
    if ch.complete
    then (Result.◌>>=◌ (forward_channel hostname dc uc ch) (λ dc'. forward_all hostname uc chs dc'))
    else forward_all hostname uc chs dc

-- Where the consumer starts: the first client of the user goes on where the last one stopped.
abbrev pub resume_from : Bool → Str → UpstreamConn → Option ℕ
resume_from first name uc = if first then lookup name uc.history else none

-- A new consumer of the connection's ring, with the goroutine that owns it.
unfoldable pub add_reader :
    Bool → UpstreamConn → DownstreamConn → Result (UpstreamConn × DownstreamConn)
add_reader first uc dc = elim (new_consumer (resume_from first dc.username uc) uc.ring) [
  | Prelude.panic ↦ panic
  | Prelude.ok (rc, ring) ↦ ok (
    record uc { ring = ring },
    record dc {
      readers =
          dc.readers
          ++ record { serial = uc.serial; network_ref = uc.network_ref; consumer = rc } ∷ [];
    },
  )
]

abbrev pub attach :
    Str → Bool → UpstreamConn → DownstreamConn → Result (UpstreamConn × DownstreamConn)
attach hostname first uc dc =
    Result.◌>>=◌ (forward_all hostname uc uc.channels dc) (λ dc'. add_reader first uc dc')

-- The loop of `register` over the connections, for one network.
unfoldable pub attach_net : Str → Bool → Net → DownstreamConn → Result (Net × DownstreamConn)
unfolding forward_all add_reader
attach_net hostname first net dc = elim net.conn [
  | none ↦ ok (net, dc)
  | some uc ↦
      if is_visited dc uc
      then Result.◌>>=◌ (attach hostname first uc dc)
          (λ out. ok (record net { conn = some out.0 }, out.1))
      else ok (net, dc)
]

unfoldable pub attach_all :
    Str → Bool → List Net → DownstreamConn → Result (List Net × DownstreamConn)
unfolding attach_net
attach_all hostname first [] dc = ok ([], dc)
attach_all hostname first (net ∷ nets) dc = Result.◌>>=◌ (attach_net hostname first net dc) (λ out.
    Result.◌>>=◌ (attach_all hostname first nets out.1) (λ more. ok (out.0 ∷ more.0, more.1)))

-- The messages that greet a client.
abbrev pub greeting : Str → Str → List Message
greeting hostname nick =
    notice hostname (Command.reply Reply.rpl_welcome)
      (nick ∷ (codes "Welcome to soju, " ++ nick) ∷ [])
    ∷ notice hostname (Command.reply Reply.rpl_yourhost)
        (nick ∷ (codes "Your host is " ++ hostname) ∷ [])
    ∷ notice hostname (Command.reply Reply.rpl_created)
        (nick ∷ codes "Who cares when the server was created?" ∷ [])
    ∷ notice hostname (Command.reply Reply.rpl_myinfo)
        (nick ∷ hostname ∷ codes "soju" ∷ codes "aiwroO" ∷ codes "OovaimnqpsrtklbeI" ∷ [])
    ∷ notice hostname (Command.reply Reply.err_nomotd) (nick ∷ codes "No MOTD" ∷ [])
    ∷ []

-- The user of the client: found by its password now, or by SASL before; then its network, if none is set.
unfoldable pub identify : Outside → Handler (Unit {0})
identify out = do
  s ← get
  modify_client (λ dc. record dc { password = [] })
  elim s.client.user [
    | none ↦ authenticate out s.client.raw_username s.client.password
    | some name ↦ elim s.client.network [
      | none ↦ set_network out (unmarshal_username s.client.raw_username).1
      | some i ↦ finish
    ]
  ]

-- The client with the state of one that is registered, and greeted.
abbrev pub welcomed : Str → Str → DownstreamConn → DownstreamConn
welcomed hostname username dc = record dc {
  registered = true;
  username = username;
  outgoing = dc.outgoing ++ greeting hostname dc.nick;
}

-- The loop of `register` over the connections of the user.
unfoldable pub attach_upstreams : Str → Bool → Handler (Unit {0})
unfolding attach_all
attach_upstreams hostname first = do
  s ← get
  (name, u) ← the_user
  (nets, dc) ← lift (attach_all hostname first u.networks s.client)
  put_user name (record u { networks = nets })
  modify_client (λ _. dc)

unfoldable pub enter : Outside → Handler (Unit {0})
unfolding attach_upstreams
enter out = do
  s ← get
  (name, u) ← the_user
  put_user name (record u { attached = u.attached ++ s.self ∷ [] })
  modify_client (welcomed out.hostname name)
  attach_upstreams out.hostname (length u.attached == 0)

unfoldable pub register : Outside → Handler (Unit {0})
unfolding identify enter
register out = do identify out; enter out

-- The switch of `handleMessageUnregistered`.
unfoldable pub unregistered_command : Outside → Command → Message → Handler (Unit {0})
unregistered_command out Command.nick msg = do
  params ← lift (parse_message_params out.text msg 1)
  modify_client (λ dc. record dc { nick = param params 0 })
unregistered_command out Command.user msg = do
  params ← lift (parse_message_params out.text msg 4)
  modify_client (λ dc. record dc { realname = param params 3; raw_username = param params 0 })
unregistered_command out Command.pass msg = do
  params ← lift (parse_message_params out.text msg 1)
  modify_client (λ dc. record dc { password = param params 0 })
unregistered_command out Command.capability msg = cap out msg
unregistered_command out Command.authenticate msg = handle_sasl out msg.params
unregistered_command out cmd msg = fail (irc_error (unknown_command (command_text out.text cmd)))

-- Whether the client has given what `register` needs.
abbrev pub is_introduced : DownstreamConn → Bool
is_introduced dc =
    not (str_eq dc.raw_username []) && not (str_eq dc.nick []) && not dc.negociating_caps

unfoldable pub handle_unregistered : Outside → Message → Handler (Unit {0})
unfolding unregistered_command
handle_unregistered out msg = do
  unregistered_command out msg.command msg
  s ← get
  if is_introduced s.client then register out else finish
