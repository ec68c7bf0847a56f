-- ===== src/Upstream/Registration.antt =====
-- `register`, the negotiation of capabilities, and the replies of the registration.
use soju.Prelude.{
  ◌-◌, Bool, true, false, not, ◌&&◌, ◌||◌, none, some, List, [], ◌∷◌, leb, ltb, if◌then◌else◌,
  length, get_or, drop,
}
use soju.Prelude.Text.{Str, codes, str_eq}
use soju.Prelude.Dict.{Dict, lookup, insert}
use soju.Prelude.Strings.{to_upper, to_lower, fields, split, split_first, equal_fold}
use soju.Irc.{Message, Command}
use soju.Irc.Result.{ok, irc_error, unsupported_mechanism}
use soju.Irc.Params.{command_text, need_more_params, parse_message_params, param}
use soju.Conn.{Network, SaslClient, UpstreamConn}
use soju.Upstream.{
  Env, Handler, finish, lift, fail, conn, modify, send_message, command, ◌>>=◌, ◌>>◌,
}

-- The record of the network, which the connection points to.
abbrev pub network : Handler Network
network w = (ok w.network, w)

abbrev or_default : Str → Str → Str
or_default s d = if str_eq s [] then d else s

unfoldable pub register : Handler (Unit {0})
register = do
  n ← network
  modify (λ uc. record uc {
    nick = n.nick;
    username = or_default n.username n.nick;
    realname = or_default n.realname n.nick;
  })
  send_message (command Command.capability (codes "LS" ∷ codes "302" ∷ []))
  if not (str_eq n.pass []) then send_message (command Command.pass (n.pass ∷ [])) else finish
  uc ← conn
  send_message (command Command.nick (uc.nick ∷ []))
  send_message (command Command.user (uc.username ∷ codes "0" ∷ codes "*" ∷ uc.realname ∷ []))

unfoldable pub any_fold : Str → List Str → Bool
any_fold mechanism [] = false
any_fold mechanism (m ∷ ms) = equal_fold m mechanism || any_fold mechanism ms

unfoldable pub request_sasl : Network → UpstreamConn → Bool
unfolding any_fold
request_sasl n uc =
    if str_eq n.sasl.mechanism [] then false else elim (lookup (codes "sasl") uc.caps) [
      | none ↦ false
      | some v ↦ if not (str_eq v []) then any_fold n.sasl.mechanism (split v b',') else true
    ]

abbrev plain_client : Network → SaslClient
plain_client n = record {
  identity = [];
  username = n.sasl.plain_username;
  password = n.sasl.plain_password;
  challenges = [];
}

abbrev start_plain : Network → Handler (Unit {0})
start_plain n = do
  modify (λ uc. record uc { sasl_client = some (plain_client n) })
  send_message (command Command.authenticate (n.sasl.mechanism ∷ []))

abbrev ack_sasl : Str → Bool → Handler (Unit {0})
ack_sasl name accepted = do
  n ← network
  if not accepted
      then finish
      else if str_eq n.sasl.mechanism (codes "PLAIN")
      then start_plain n
      else fail (unsupported_mechanism name)

unfoldable pub handle_cap_ack : Str → Bool → Handler (Unit {0})
handle_cap_ack name accepted = if str_eq name (codes "sasl") then ack_sasl name accepted else finish

unfoldable pub add_caps : List Str → Dict Str → Dict Str
add_caps [] caps = caps
add_caps (s ∷ rest) caps =
    let (key, value) = split_first s b'=' in
    add_caps rest (insert (to_lower key) (elim value [ none ↦ [] | some v ↦ v ]) caps)

abbrev pub last_or : Str → List Str → Str
last_or d [] = d
last_or d (s ∷ rest) = last_or s rest

abbrev pub cap_end : Handler (Unit {0})
cap_end = send_message (command Command.capability (codes "END" ∷ []))

-- `msg.Params[len(subParams)-2] == "*"`, as the source indexes it.
abbrev pub more_follows : List Str → List Str → Bool
more_follows params sub_params =
    leb 2 (length sub_params) && str_eq (get_or params (length sub_params - 2) []) (codes "*")

unfoldable pub cap_ls : List Str → List Str → Handler (Unit {0})
unfolding add_caps request_sasl
cap_ls params sub_params = do
  modify (λ uc. record uc { caps = add_caps (fields (last_or [] sub_params)) uc.caps })
  if more_follows params sub_params then finish else do
    n ← network
    uc ← conn
    if request_sasl n uc
        then send_message (command Command.capability (codes "REQ" ∷ codes "sasl" ∷ []))
        else cap_end

unfoldable pub ack_all : List Str → Bool → Handler (Unit {0})
ack_all [] accepted = finish
ack_all (name ∷ names) accepted = do handle_cap_ack (to_lower name) accepted; ack_all names accepted

unfoldable pub cap_ack : Str → Bool → Handler (Unit {0})
cap_ack names accepted = do
  ack_all (fields names) accepted
  uc ← conn
  elim uc.sasl_client [ none ↦ cap_end | some _ ↦ finish ]

-- The error of a subcommand that lacks its argument.
unfoldable pub missing : Env → Message → Handler (Unit {0})
missing env msg = fail (irc_error (need_more_params (command_text env.text msg.command)))

unfoldable pub cap_command : Env → Message → Str → List Str → Handler (Unit {0})
cap_command env msg sub_cmd sub_params =
    if str_eq sub_cmd (codes "LS")
    then (if ltb (length sub_params) 1 then missing env msg else cap_ls msg.params sub_params)
    else if str_eq sub_cmd (codes "ACK") || str_eq sub_cmd (codes "NAK")
    then if ltb (length sub_params) 1
      then missing env msg
      else cap_ack (get_or sub_params 0 []) (str_eq sub_cmd (codes "ACK"))
    else finish

unfoldable pub handle_cap : Env → Message → Handler (Unit {0})
handle_cap env msg = do
  out ← lift (parse_message_params env.text msg 2)
  cap_command env msg (to_upper (param out 1)) (drop 2 msg.params)

unfoldable pub join_all : List Str → Handler (Unit {0})
join_all [] = finish
join_all (name ∷ names) = do send_message (command Command.join (name ∷ [])); join_all names

unfoldable pub handle_welcome : Env → Handler (Unit {0})
handle_welcome env = do
  modify (λ uc. record uc { registered = true })
  n ← network
  elim (env.list_channels n.id) [ none ↦ finish | some names ↦ join_all names ]

unfoldable pub handle_myinfo : Env → Message → Handler (Unit {0})
handle_myinfo env msg = do
  out ← lift (parse_message_params env.text msg 5)
  modify (λ uc. record uc {
    server_name = param out 1;
    available_user_modes = param out 3;
    available_channel_modes = param out 4;
  })
  if ltb 5 (length msg.params)
      then modify (λ uc. record uc { channel_modes_with_param = get_or msg.params 5 [] })
      else finish
