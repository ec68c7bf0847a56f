-- ===== src/User.antt =====
-- user.go: a user of the bouncer, with its networks and its clients.
use soju.Prelude.{
  ℕ, ◌+◌, Option, none, some, List, [], ◌∷◌, ◌++◌, if◌then◌else◌, map, get_elem?, set, length,
}
use soju.Prelude.Text.{Str, str_eq}
use soju.Irc.Result.{Result, ok, err, panic}
use soju.Db.Store.{Sql, Journal, store_network}
use soju.Conn.{Network, UpstreamConn}

-- `network`: its record, and its connection while there is one.
pub record Net : Type 0 where
  pub config : Network
  pub conn : Option UpstreamConn

-- `user`. `attached` is `downstreamConns`, the places of
-- the clients.
pub record User : Type 0 where
  pub password : Str
  pub networks : List Net
  pub attached : List ℕ

abbrev pub new_network : Network → Net
new_network config = record { config = config; conn = none }

abbrev pub new_user : Str → User
new_user password = record { password = password; networks = []; attached = [] }

-- The network at a place, changed.
abbrev pub change_at : ℕ → (Net → Net) → List Net → List Net
change_at i f nets = elim (get_elem? nets i) [ none ↦ nets | some net ↦ set nets i (f net) ]

-- `getNetwork`: the place of the first network with the address, counted from `i`.
unfoldable pub find_network : ℕ → Str → List Net → Option ℕ
find_network i addr [] = none
find_network i addr (net ∷ nets) =
    let rest = find_network (i + 1) addr nets in
    if str_eq net.config.addr addr then some i else rest

abbrev pub get_network : Str → List Net → Option ℕ
get_network addr nets = find_network 0 addr nets

-- The record of a network that a client asks for.
abbrev pub fresh_config : Str → Str → Network
fresh_config addr nick = record {
  id = 0;
  addr = addr;
  nick = nick;
  username = [];
  realname = [];
  pass = [];
  sasl = record { mechanism = []; plain_username = []; plain_password = [] };
}

-- What `createNetwork` does once the database has answered.
abbrev pub appended : User → Result (Unit {0}) × Network × Journal → Result ℕ × User × Journal
appended u (ok a, config, journal) =
    (ok (length u.networks), record u { networks = u.networks ++ new_network config ∷ [] }, journal)
appended u (err e, config, journal) = (err e, u, journal)
appended u (panic, config, journal) = (panic, u, journal)

-- `createNetwork`: the place of the new network. That it then connects is a step of its own.
unfoldable pub create_network : Sql → Str → Str → Str → User → Journal → Result ℕ × User × Journal
create_network sql username addr nick u journal =
    appended u (store_network sql username (fresh_config addr nick) journal)

-- The networks that the database lists, as `run` makes them.
abbrev pub load : List Network → List Net
load configs = map new_network configs
