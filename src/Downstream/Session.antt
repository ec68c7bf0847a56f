-- ===== src/Downstream/Session.antt =====
-- What a handler of a client reads and writes: the client itself, the users of the server with their
-- networks, and the database.
use mathlib.Core.Option
use soju.Prelude.{ℕ, Bool, Option, none, some, List, [], ◌∷◌, ◌++◌, if◌then◌else◌, map, get_elem?}
use soju.Prelude.Text.{Str}
use soju.Prelude.Dict.{Dict, lookup, insert}
use soju.Irc.{Message, Command, Reply}
use soju.Irc.Result.{Result, ok, panic, Step}
use soju.Irc.Action.{Action, lift, get, update, ◌>>=◌}
use soju.Db.Store.{Sql, Journal}
use soju.Conn.{UpstreamConn, DownstreamConn, deliver, server_prefix}
use soju.User.{Net, User, change_at}
use soju.Downstream.Routing.{is_visited}

-- What a SASL server makes of a response: it has a challenge, which may be nil, it asks its authenticator
-- with an identity, a username and a password, and passes its result on, or it fails.
pub data SaslStep : Type 0 where
  challenge : Option Str → SaslStep
  check : Str → Str → Str → SaslStep
  failed : SaslStep

-- Code outside: the texts of irc.v3's constants and `String` of a message, `%q` of package fmt, base64,
-- the server of go-sasl after the responses that it has been given (of which any may be nil), bcrypt with
-- a hash and a password, whether a TLS connection to an address succeeds, and the database.
pub record Outside : Type 0 where
  pub hostname : Str
  pub text : Reply → Str
  pub message_text : Message → Str
  pub quote : Str → Str
  pub base64_decode : Str → Option Str
  pub base64_encode : Str → Str
  pub plain_next : List (Option Str) → SaslStep
  pub check_password : Str → Str → Bool
  pub dial : Str → Bool
  pub sql : Sql

-- `self` is the client's place among the clients of the server.
pub record Session : Type 0 where
  pub self : ℕ
  pub client : DownstreamConn
  pub users : Dict User
  pub journal : Journal

abbrev pub Handler : Type 0 → Type 0
Handler A = Action Session A

abbrev pub modify_client : (DownstreamConn → DownstreamConn) → Handler (Unit {0})
modify_client f = update (λ s. record s { client = f s.client })

-- A call that reads and writes nothing but the client.
abbrev pub on_client : (DownstreamConn → Step DownstreamConn (Unit {0})) → Handler (Unit {0})
on_client f s = let (r, dc) = f s.client in (r, record s { client = dc })

abbrev pub send : Message → Handler (Unit {0})
send msg = modify_client (deliver msg)

-- A message of the server.
abbrev pub notice : Str → Command → List Str → Message
notice hostname cmd params = record {
  prefix = some (server_prefix hostname);
  command = cmd;
  params = params;
}

-- The message of an `ircError`, which has no prefix yet.
abbrev pub refusal : Command → List Str → Message
refusal cmd params = record { prefix = none; command = cmd; params = params }

-- The user that a client points to.
abbrev pub account : Dict User → Option Str → Option (Str × User)
account users none = none
account users (some name) = Option.map (λ (u : User). (name, u)) (lookup name users)

abbrev pub user_of : Session → Option (Str × User)
user_of s = account s.users s.client.user

-- A nil pointer panics.
abbrev pub not_nil : {A : Type 0} → Option A → Result A
not_nil none = panic
not_nil (some a) = ok a

abbrev pub the_user : Handler (Str × User)
the_user s = (not_nil (user_of s), s)

abbrev pub put_user : Str → User → Handler (Unit {0})
put_user name u = update (λ s. record s { users = insert name u s.users })

-- A change of the networks of the user.
unfoldable pub modify_networks : (List Net → List Net) → Handler (Unit {0})
modify_networks f = do (name, u) ← the_user; put_user name (record u { networks = f u.networks })

abbrev pub conns : List Net → List (Option UpstreamConn)
conns nets = map (λ (net : Net). net.conn) nets

-- The connection of a network, if both are there.
abbrev pub conn_of : Option Net → Option UpstreamConn
conn_of none = none
conn_of (some net) = net.conn

abbrev pub conn_at : ℕ → List Net → Option UpstreamConn
conn_at i nets = conn_of (get_elem? nets i)

unfoldable pub the_conn : ℕ → Handler UpstreamConn
the_conn i = do (name, u) ← the_user; lift (not_nil (conn_at i u.networks))

abbrev pub put_conn : UpstreamConn → List Net → List Net
put_conn uc nets = change_at uc.network_ref (λ net. record net { conn = some uc }) nets

abbrev pub sent : Message → UpstreamConn → UpstreamConn
sent msg uc = record uc { outgoing = uc.outgoing ++ msg ∷ [] }

-- `SendMessage` of the connection at a place: sending on the closed channel panics.
unfoldable pub send_upstream : ℕ → Message → Handler (Unit {0})
unfolding the_conn modify_networks
send_upstream i msg = do
  uc ← the_conn i
  if uc.closed then lift panic else modify_networks (put_conn (sent msg uc))

-- `forEachUpstream` with a callback that sends one message. No connection that it visits is closed, so none
-- of these calls panics.
abbrev pub told : DownstreamConn → (UpstreamConn → Message) → Net → Net
told dc f net = elim net.conn [
  | none ↦ net
  | some uc ↦ if is_visited dc uc then record net { conn = some (sent (f uc) uc) } else net
]

unfoldable pub send_upstreams : (UpstreamConn → Message) → Handler (Unit {0})
unfolding modify_networks
send_upstreams f = do s ← get; modify_networks (map (told s.client f))
