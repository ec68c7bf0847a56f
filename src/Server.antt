-- ===== src/Server.antt =====
-- server.go, and what the goroutines of user.go do to a server: the users, the clients that ever connected, and the
-- steps by which they change.
pub mod Networks
pub mod Sound
mod Tests
use soju.Prelude.{
  ℕ, suc, ◌+◌, Bool, true, false, not, Option, none, some, List, [], ◌∷◌, ◌++◌, ◌==◌, if◌then◌else◌,
  length, get_elem?, set, contains, Outcome,
}
use soju.Prelude
use soju.Prelude.Text.{Str, codes}
use soju.Prelude.Dict.{Dict, lookup, insert}
use soju.Prelude.Int.{ℤ}
use soju.Irc.{Message}
use soju.Irc.Result
use soju.Irc.Result.{Result, ok, err, panic, dial_failed, already_closed, Step}
use soju.Ring.{remove_first, new_ring}
use soju.Conn.{Network, UpstreamConn, DownstreamConn, Reader}
use soju.Db.Store.{Sql, Journal, UserRecord, list_users, list_networks}
use soju.User.{Net, User, new_user, load, change_at}
use soju.Downstream.Session.{Outside, Session, user_of, conn_at, put_conn}
use soju.Downstream.Handle.{serve, close}

-- `Server`. `clients` are all that ever connected, by their places, and `live` is `downstreamConns`. `serials` counts the
-- connections to servers that were made.
pub record Server : Type 0 where
  pub users : Dict User
  pub clients : List DownstreamConn
  pub live : List ℕ
  pub journal : Journal
  pub serials : ℕ

abbrev pub new_server : Server
new_server = record { users = []; clients = []; live = []; journal = []; serials = 0 }

-- The networks that the goroutine of a user starts with: none if the database fails.
abbrev pub networks_of : Result (List Network) → List Net
networks_of (ok configs) = load configs
networks_of (err e) = []
networks_of panic = []

-- The loop of `Run` over the records of the users.
unfoldable pub add_users : Sql → List UserRecord → Dict User → Dict User
add_users sql [] users = users
add_users sql (r ∷ records) users =
    let u : User = record (new_user r.password) {
      networks = networks_of (list_networks sql r.username []);
    } in
    add_users sql records (insert r.username u users)

-- `Run`, up to where it waits.
unfoldable pub start : Sql → Result Server
unfolding add_users
start sql =
    Result.◌>>=◌ (list_users sql [])
      (λ records. ok (record new_server { users = add_users sql records [] }))

abbrev pub get_user : Str → Server → Option User
get_user name srv = lookup name srv.users

-- `newDownstreamConn`
abbrev pub new_client : DownstreamConn
new_client = record {
  outgoing = [];
  closed = false;
  registered = false;
  user = none;
  nick = [];
  username = [];
  raw_username = [];
  realname = [];
  password = [];
  network = none;
  negociating_caps = false;
  cap_version = ℤ.pos 0;
  caps = [];
  sasl_server = none;
  our_messages = [];
  readers = [];
}

-- A connection that `Serve` accepts.
abbrev pub accept : Server → Server
accept srv = record srv {
  clients = srv.clients ++ new_client ∷ [];
  live = srv.live ++ length srv.clients ∷ [];
}

-- What a handler of the client at place `i` sees, and what it leaves.
abbrev pub session : ℕ → DownstreamConn → Server → Session
session i dc srv = record { self = i; client = dc; users = srv.users; journal = srv.journal }

abbrev pub put_session : Session → Server → Server
put_session s srv = record srv {
  users = s.users;
  clients = set srv.clients s.self s.client;
  journal = s.journal;
}

-- A message of the client at place `i`.
unfoldable pub receive : Outside → ℕ → Message → Server → Step Server (Unit {0})
receive out i msg srv = elim (get_elem? srv.clients i) [
  | none ↦ (panic, srv)
  | some dc ↦ let (r, s) = serve out msg (session i dc srv) in (r, put_session s srv)
]

-- The end of a client's connection: `Serve` closes the client, which may be closed already, and forgets it.
unfoldable pub hang_up : ℕ → Server → Server
hang_up i srv = elim (get_elem? srv.clients i) [
  | none ↦ srv
  | some dc ↦
      let (_, s) = close (session i dc srv) in
      record (put_session s srv) { live = remove_first i srv.live }
]
