-- ===== src/Downstream/Registered.antt =====
-- `handleMessageRegistered`: what a registered client asks for.

use soju.Prelude.{
  ℕ, suc, ◌+◌, Bool, true, false, not, ◌&&◌, ◌||◌, Option, none, some, List, [], ◌∷◌, ◌++◌, ◌==◌,
  if◌then◌else◌, ltb, length, get_or, drop, Outcome,
}
use soju.Prelude
use soju.Prelude.Text.{Str, codes, str_eq}
use soju.Prelude.Strings.{split}
use mathlib.Core.Option
use soju.Prelude.Dict.{Dict, lookup}
use soju.Irc.{Message, Command, Reply}
use soju.Irc.Result.{Error, Result, ok, err, panic, irc_error, missing_prefix, Step}
use soju.Irc.Action.{finish, lift, fail, get, update, ◌>>=◌, ◌>>◌}
use soju.Irc.Params.{parse_message_params, param, command_text, unknown_command}
use soju.Db.Store.{Sql, Journal, store_network, store_channel, remove_channel}
use soju.Ring.{produce}
use soju.Conn.{Network, UpstreamConn}
use soju.User.{Net, User, change_at}
use soju.Downstream.Caps.{handle_cap_command}
use soju.Downstream.Routing.{unmarshal_channel, parse_credentials, no_such_channel}
use soju.Downstream.Session.{
  Outside, Handler, modify_client, on_client, send, notice, refusal, the_user, put_user,
  modify_networks, conns, the_conn, put_conn, send_upstream, send_upstreams,
}

-- A message of ours, which has no prefix.
abbrev pub plain : Command → List Str → Message
plain cmd params = record { prefix = none; command = cmd; params = params }

unfoldable pub cap : Outside → Message → Handler (Unit {0})
cap out msg = do
  params ← lift (parse_message_params out.text msg 1)
  on_client (handle_cap_command out.hostname (param params 0) (drop 1 msg.params))

-- The loop of NICK over the networks of the user: each is changed before the database is asked, and after an error it does nothing.
unfoldable pub store_nicks :
    Sql → Str → Str → List Net → Journal → Result (Unit {0}) × List Net × Journal
store_nicks sql username nick [] journal = (ok tt, [], journal)
store_nicks sql username nick (net ∷ nets) journal =
    let (r, config, journal') =
      store_network sql username (record net.config { nick = nick }) journal in
    let rest = store_nicks sql username nick nets journal' in
    elim r [
      | ok a ↦ (rest.0, record net { config = config } ∷ rest.1, rest.2)
      | failed ↦ (failed, record net { config = config } ∷ nets, journal')
    ]

-- A client that is bound to no network.
unfoldable pub change_all_nicks : Outside → Str → Handler (Unit {0})
unfolding store_nicks
change_all_nicks out nick = do
  s ← get
  (name, u) ← the_user
  let (r, nets, journal) = store_nicks out.sql name nick u.networks s.journal
  update (λ t. record t { journal = journal })
  put_user name (record u { networks = nets })
  lift r

-- The network at a place of a user. A pointer to one always has its network.
abbrev pub network_at : Dict User → Str → ℕ → Option (User × Net)
network_at users owner i = elim (lookup owner users) [
  | none ↦ none
  | some u ↦ Option.map (λ (net : Net). (u, net)) (Prelude.get_elem? u.networks i)
]

-- A client that is bound to a network, whichever user has that. It is stored under the name of the user that the client points to.
unfoldable pub change_bound_nick : Outside → Str → ℕ → Str → Handler (Unit {0})
change_bound_nick out owner i nick = do
  s ← get
  (name, _) ← the_user
  elim (network_at s.users owner i) [
    | none ↦ lift panic
    | some (u, net) ↦ do
      let (r, config, journal) =
          store_network out.sql name (record net.config { nick = nick }) s.journal
      update (λ t. record t { journal = journal })
      put_user owner
          (record u { networks = change_at i (λ n. record n { config = config }) u.networks })
      lift r
  ]

-- NICK with `forEachNetwork`.
unfoldable pub change_nicks : Outside → Str → Handler (Unit {0})
unfolding change_all_nicks change_bound_nick
change_nicks out nick = do
  s ← get
  elim s.client.network [
    | none ↦ change_all_nicks out nick
    | some (owner, i) ↦ change_bound_nick out owner i nick
  ]

unfoldable pub nick : Outside → Message → Handler (Unit {0})
unfolding change_nicks
nick out msg = do
  params ← lift (parse_message_params out.text msg 1)
  change_nicks out (param params 0)
  send_upstreams (λ uc. msg)

-- `unmarshalChannel` with the networks of the user.
unfoldable pub resolve : Str → Handler (UpstreamConn × Str)
resolve name = do
  s ← get
  (_, u) ← the_user
  lift (unmarshal_channel s.client (conns u.networks) name)

-- The error of JOIN and PART, which quotes the text of the one that it replaces; `unmarshalChannel` returns no
-- other.
abbrev pub reworded_error : Outside → Str → Error → Error
reworded_error out name (irc_error m) =
    irc_error (refusal (Command.reply Reply.err_nosuchchannel) (name ∷ out.message_text m ∷ []))
reworded_error out name e = e

abbrev pub reworded : Outside → Str → Result (UpstreamConn × Str) → Result (UpstreamConn × Str)
reworded out name (ok found) = ok found
reworded out name (err e) = err (reworded_error out name e)
reworded out name panic = panic

unfoldable pub resolve_or_reword : Outside → Str → Handler (UpstreamConn × Str)
unfolding resolve
resolve_or_reword out name s = let (r, s') = resolve name s in (reworded out name r, s')

-- A call of the database whose error is only logged; `i` is the network's place.
unfoldable pub log_errors : ℕ → (ℕ → Journal → Step Journal (Unit {0})) → Handler (Unit {0})
log_errors i call = do
  (_, u) ← the_user
  let id : ℕ = elim (Prelude.get_elem? u.networks i) [ none ↦ 0 | some net ↦ net.config.id ]
  update (λ s. record s { journal = (call id s.journal).1 })

unfoldable pub join : Outside → Message → Handler (Unit {0})
unfolding resolve_or_reword log_errors
join out msg = do
  params ← lift (parse_message_params out.text msg 1)
  (uc, upstream_name) ← resolve_or_reword out (param params 0)
  send_upstream uc.network_ref (plain Command.join (upstream_name ∷ []))
  log_errors uc.network_ref (λ id. store_channel out.sql id upstream_name)

unfoldable pub part : Outside → Message → Handler (Unit {0})
unfolding resolve_or_reword log_errors
part out msg = do
  params ← lift (parse_message_params out.text msg 1)
  (uc, upstream_name) ← resolve_or_reword out (param params 0)
  send_upstream uc.network_ref (plain Command.part (upstream_name ∷ []))
  log_errors uc.network_ref (λ id. remove_channel out.sql id upstream_name)

unfoldable pub channel_mode : Outside → Str → Str → Handler (Unit {0})
unfolding resolve
channel_mode out name mode_str = do
  (uc, upstream_name) ← resolve name
  if not (str_eq mode_str [])
      then send_upstream uc.network_ref (plain Command.mode (upstream_name ∷ mode_str ∷ []))
      else elim (lookup upstream_name uc.channels) [
        | none ↦ fail (irc_error (no_such_channel name))
        | some ch ↦
            send
              (notice out.hostname (Command.reply Reply.rpl_channelmodeis) (name ∷ ch.modes ∷ []))
      ]

unfoldable pub user_mode : Outside → Str → Str → Handler (Unit {0})
user_mode out name mode_str = do
  s ← get
  if not (str_eq name s.client.nick)
      then fail (
          irc_error (
            refusal (Command.reply Reply.err_usersdontmatch)
              (s.client.nick ∷ codes "Cannot change mode for other users" ∷ [])))
      else if not (str_eq mode_str [])
      then send_upstreams (λ uc. plain Command.mode (uc.nick ∷ mode_str ∷ []))
      else send (notice out.hostname (Command.reply Reply.rpl_umodeis) ([] ∷ []))

unfoldable pub mode : Outside → Message → Handler (Unit {0})
unfolding channel_mode user_mode
mode out msg = elim msg.prefix [
  | none ↦ fail missing_prefix
  | some p ↦ do
    params ← lift (parse_message_params out.text msg 1)
    let name = param params 0
    let mode_str : Str = if ltb 1 (length msg.params) then get_or msg.params 1 [] else []
    if not (str_eq p.name name) then channel_mode out name mode_str else user_mode out name mode_str
]

-- The network's record with the credentials that the client gave to NickServ.
abbrev pub with_credentials : Str → Str → Network → Network
with_credentials username password n = record n {
  sasl = record { mechanism = codes "PLAIN"; plain_username = username; plain_password = password };
}

-- `handleNickServPRIVMSG` once the credentials are read: they are kept even if the database fails.
unfoldable pub save_credentials : Outside → ℕ → Str → Str → Handler (Unit {0})
save_credentials out i username password = do
  s ← get
  (name, u) ← the_user
  elim (Prelude.get_elem? u.networks i) [
    | none ↦ lift panic
    | some net ↦ do
      let (r, config, journal) =
          store_network out.sql name (with_credentials username password net.config) s.journal
      update (λ t. record t { journal = journal })
      put_user name
          (record u { networks = change_at i (λ n. record n { config = config }) u.networks })
  ]

unfoldable pub nickserv : Outside → UpstreamConn → Str → Handler (Unit {0})
unfolding save_credentials
nickserv out uc text = do
  found ← lift (parse_credentials text uc.nick)
  elim found [
    | none ↦ finish
    | some (username, password) ↦ save_credentials out uc.network_ref username password
  ]

-- The message that the other clients of the user are to see.
abbrev pub echo : UpstreamConn → Str → Str → Message
echo uc target text = record {
  prefix = some (record { name = uc.nick; user = uc.username; host = [] });
  command = Command.privmsg;
  params = target ∷ text ∷ [];
}

-- The echo is marked as ours, by its place in the ring, before it is produced.
unfoldable pub produce_echo : ℕ → Message → Handler (Unit {0})
produce_echo i msg = do
  uc ← the_conn i
  modify_client
      (λ dc. record dc { our_messages = dc.our_messages ++ (uc.serial, uc.ring.cur) ∷ [] })
  elim (produce msg uc.ring) [
    | Prelude.panic ↦ lift panic
    | Prelude.ok ring ↦ modify_networks (put_conn (record uc { ring = ring }))
  ]

unfoldable pub say : Outside → Str → Str → Handler (Unit {0})
unfolding resolve nickserv produce_echo
say out text target = do
  (uc, upstream_name) ← resolve target
  if str_eq upstream_name (codes "NickServ") then nickserv out uc text else finish
  send_upstream uc.network_ref (plain Command.privmsg (upstream_name ∷ text ∷ []))
  produce_echo uc.network_ref (echo uc upstream_name text)

unfoldable pub say_all : Outside → Str → List Str → Handler (Unit {0})
say_all out text [] = finish
say_all out text (target ∷ targets) = do say out text target; say_all out text targets

unfoldable pub privmsg : Outside → Message → Handler (Unit {0})
privmsg out msg = do
  params ← lift (parse_message_params out.text msg 2)
  say_all out (param params 1) (split (param params 0) b',')

unfoldable pub handle_registered : Outside → Command → Message → Handler (Unit {0})
handle_registered out Command.capability msg = cap out msg
handle_registered out Command.ping msg = send (notice out.hostname Command.pong msg.params)
handle_registered out Command.user msg = do
  s ← get
  fail (
      irc_error (
        refusal (Command.reply Reply.err_alreadyregistered)
          (s.client.nick ∷ codes "You may not reregister" ∷ [])))
handle_registered out Command.nick msg = nick out msg
handle_registered out Command.join msg = join out msg
handle_registered out Command.part msg = part out msg
handle_registered out Command.mode msg = mode out msg
handle_registered out Command.privmsg msg = privmsg out msg
handle_registered out cmd msg = fail (irc_error (unknown_command (command_text out.text cmd)))
