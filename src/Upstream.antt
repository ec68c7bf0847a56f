-- ===== src/Upstream.antt =====
-- upstream.go: the connection to a server. Each handler takes the state that it may change and returns
-- its result and the state that it leaves. Logging is left out.
pub mod Bridge
pub mod Broadcast
pub mod Registration
pub mod Authenticate
pub mod Channels
pub mod Handle
pub mod Keeps
pub mod Stable
pub mod Total
pub mod ChannelsKeep
pub mod Invariant
pub mod Ready
pub mod Membership
pub mod Tracking
pub mod Users
pub mod Negotiation
pub mod Success
mod Tests
use soju.Prelude.{ℕ, Bool, true, false, Option, none, some, List, [], ◌∷◌, ◌++◌, if◌then◌else◌}
use soju.Prelude.Text.{Str}
use soju.Irc.{Message, Command, Reply}
use soju.Irc.Result.{Result, ok, err, panic, Step}
unfoldable pub use soju.Irc.Action.{pure, finish, lift, fail, continue, ◌>>=◌, ◌>>◌}
use soju.Irc.Action.{Action}
use soju.Conn.{Network, SaslClient, UpstreamConn, DownstreamConn}

-- What the handlers use of code outside: the texts of irc.v3's constants, base64 of the standard
-- library, the answers of a SASL client (an error, or a response that may be nil), the names of a
-- network's channels in the database (or an error), and the server's hostname.
pub record Env : Type 0 where
  pub text : Reply → Str
  pub base64_decode : Str → Option Str
  pub base64_encode : Str → Str
  pub sasl_start : SaslClient → Option (Option Str)
  pub sasl_next : SaslClient → Str → Option (Option Str)
  pub list_channels : ℕ → Option (List Str)
  pub hostname : Str

-- A connection, the record of its network, and the clients of its user.
pub record World : Type 0 where
  pub conn : UpstreamConn
  pub network : Network
  pub downstreams : List DownstreamConn

abbrev pub Handler : Type 0 → Type 0
Handler A = Action World A

-- Reads the connection.
abbrev pub conn : Handler UpstreamConn
conn w = (ok w.conn, w)

abbrev pub modify : (UpstreamConn → UpstreamConn) → Handler (Unit {0})
modify f w = (ok tt, record w { conn = f w.conn })

-- `SendMessage`: sending on the closed channel panics.
unfoldable pub send_message : Message → Handler (Unit {0})
send_message msg w =
    if w.conn.closed
    then (panic, w)
    else (ok tt, record w { conn = record w.conn { outgoing = w.conn.outgoing ++ msg ∷ [] } })

-- A message of ours, which has no prefix.
abbrev pub command : Command → List Str → Message
command cmd params = record { prefix = none; command = cmd; params = params }

-- `Close`
unfoldable pub close : Handler (Unit {0})
close w =
    if w.conn.closed
    then (err soju.Irc.Result.already_closed, w)
    else (ok tt, record w { conn = record w.conn { closed = true } })
