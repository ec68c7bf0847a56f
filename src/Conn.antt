-- ===== src/Conn.antt =====
-- The connections, their channels and networks: the types of upstream.go, downstream.go and db.go,
-- and the sending of messages to a client.
use soju.Prelude.{
  ℕ, Bool, true, false, ◌&&◌, ◌==◌, Option, none, some, List, [], ◌∷◌, ◌++◌, if◌then◌else◌,
}
use soju.Prelude.Text.{Str, str_eq}
use soju.Prelude.Dict.{Dict}
use soju.Prelude.Int.{ℤ}
use soju.Ring.{Memory}
use soju.Irc.{Prefix, Message}

-- `SASL` of db.go.
pub record Sasl : Type 0 where
  pub mechanism : Str
  pub plain_username : Str
  pub plain_password : Str

-- `Network` of db.go.
pub record Network : Type 0 where
  pub id : ℕ
  pub addr : Str
  pub nick : Str
  pub username : Str
  pub realname : Str
  pub pass : Str
  pub sasl : Sasl

-- `upstreamChannel`. A membership is its prefix byte, or 0.
pub record UpstreamChannel : Type 0 where
  pub name : Str
  pub topic : Str
  pub topic_who : Str
  pub topic_time : Option ℤ
  pub status : ℕ
  pub modes : Str
  pub members : Dict ℕ
  pub complete : Bool

-- A client of package go-sasl: how it was made, and the challenges that it has been given. What it
-- answers is a parameter.
pub record SaslClient : Type 0 where
  pub identity : Str
  pub username : Str
  pub password : Str
  pub challenges : List Str

-- `upstreamConn`. `serial` is the identity of the object, which no other connection has. `network_ref` is the pointer to the network, by its place; `outgoing` lists what was
-- sent on the channel; the ring comes with its consumers.
pub record UpstreamConn : Type 0 where
  pub serial : ℕ
  pub network_ref : ℕ
  pub outgoing : List Message
  pub ring : Memory Message
  pub server_name : Str
  pub available_user_modes : Str
  pub available_channel_modes : Str
  pub channel_modes_with_param : Str
  pub registered : Bool
  pub nick : Str
  pub username : Str
  pub realname : Str
  pub closed : Bool
  pub modes : Str
  pub channels : Dict UpstreamChannel
  pub caps : Dict Str
  pub sasl_client : Option SaslClient
  pub sasl_started : Bool
  pub history : Dict ℕ

-- The goroutine that `register` starts for a client and a connection: the connection's identity, the place
-- of its network, and the consumer's place in the ring's heap.
pub record Reader : Type 0 where
  pub serial : ℕ
  pub network_ref : ℕ
  pub consumer : ℕ

-- `downstreamConn`. `user` is the name of the user that it points to, and `network` points to a network: by the name of the user
-- that has it, who need not be that user, and its place there.
-- `sasl_server` lists the responses that a server of package go-sasl has been given. A message of
-- `our_messages` is known by its connection's identity and its sequence number in the ring.
pub record DownstreamConn : Type 0 where
  pub outgoing : List Message
  pub closed : Bool
  pub registered : Bool
  pub user : Option Str
  pub nick : Str
  pub username : Str
  pub raw_username : Str
  pub realname : Str
  pub password : Str
  pub network : Option (Str × ℕ)
  pub negociating_caps : Bool
  pub cap_version : ℤ
  pub caps : Dict Bool
  pub sasl_server : Option (List (Option Str))
  pub our_messages : List (ℕ × ℕ)
  pub readers : List Reader

-- Whether a client is bound to no network, or to the one at a place of the user that it points to.
abbrev pub points_at : DownstreamConn → ℕ → Bool
points_at dc i = elim dc.network [
  | none ↦ true
  | some (owner, n) ↦ (elim dc.user [ none ↦ false | some name ↦ str_eq owner name ]) && n == i
]

-- `SendMessage` of a client. Its channel is never closed.
abbrev pub deliver : Message → DownstreamConn → DownstreamConn
deliver msg dc = record dc { outgoing = dc.outgoing ++ msg ∷ [] }

-- `prefix` of a client.
abbrev pub client_prefix : DownstreamConn → Prefix
client_prefix dc = record { name = dc.nick; user = dc.username; host = [] }

-- `prefix` of the server.
abbrev pub server_prefix : Str → Prefix
server_prefix hostname = record { name = hostname; user = []; host = [] }

abbrev pub marshal_channel : Str → Str
marshal_channel name = name

unfoldable pub marshal_nick : DownstreamConn → UpstreamConn → Str → Str
marshal_nick dc uc nick = if str_eq nick uc.nick then dc.nick else nick

unfoldable pub marshal_user_prefix : DownstreamConn → UpstreamConn → Prefix → Prefix
marshal_user_prefix dc uc prefix = if str_eq prefix.name uc.nick then client_prefix dc else prefix
