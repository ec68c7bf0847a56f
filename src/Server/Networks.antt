-- ===== src/Server/Networks.antt =====
-- What the goroutine of a network (`network.run` of user.go) and the messages of its connection do to the server.
use soju.Prelude.{
  ℕ, zero, suc, ◌+◌, Bool, true, false, not, Option, none, some, List, [], ◌∷◌, ◌++◌, ◌==◌,
  if◌then◌else◌, length, get_elem?, set, contains, Outcome,
}
use soju.Prelude
use soju.Prelude.Text.{Str, codes}
use soju.Prelude.Dict.{lookup, insert}
use soju.Irc.{Message}
use soju.Irc.Result.{Result, ok, err, panic, dial_failed, Step}
use soju.Ring.{Memory, new_ring, remove_first}
use soju.Ring
use soju.Conn.{Network, UpstreamConn, DownstreamConn, Reader}
use soju.User.{Net, User, change_at}
use soju.Upstream.{Env, World}
use soju.Upstream.Registration.{register}
use soju.Upstream.Handle.{handle_message}
use soju.Downstream.Session.{conn_at}
use soju.Server.{Server}

-- `NewRing` with no consumer yet.
abbrev pub empty_ring : ℕ → Memory Message
empty_ring cap = record { ring = new_ring cap; heap = [] }

-- `connectToUpstream`, for the network at a place; the port that is meant if none is given is part of the address.
abbrev pub address : Str → Str
address addr = if contains addr b':' then addr else addr ++ codes ":6697"

abbrev pub new_conn : ℕ → ℕ → ℕ → UpstreamConn
new_conn ring_cap serial i = record {
  serial = serial;
  network_ref = i;
  outgoing = [];
  ring = empty_ring ring_cap;
  server_name = [];
  available_user_modes = [];
  available_channel_modes = [];
  channel_modes_with_param = [];
  registered = false;
  nick = [];
  username = [];
  realname = [];
  closed = false;
  modes = [];
  channels = [];
  caps = [];
  sasl_client = none;
  sasl_started = false;
  history = [];
}

abbrev pub connect_to_upstream : (Str → Bool) → ℕ → ℕ → ℕ → Network → Result UpstreamConn
connect_to_upstream dial ring_cap serial i config =
    if dial (address config.addr) then ok (new_conn ring_cap serial i) else err dial_failed

-- The connection in its place.
abbrev pub put_at : ℕ → UpstreamConn → List Net → List Net
put_at i uc nets = change_at i (λ net. record net { conn = some uc }) nets

-- The connection after `register`.
abbrev pub introduced : UpstreamConn → Network → UpstreamConn
introduced uc config = (register (record { conn = uc; network = config; downstreams = [] })).1.conn

-- A round of `network.run` up to the reading of messages; an error is logged, and the next round tries again.
unfoldable pub connect : (Str → Bool) → ℕ → Str → ℕ → Server → Server
connect dial ring_cap name i srv = elim (lookup name srv.users) [
  | none ↦ srv
  | some u ↦ elim (get_elem? u.networks i) [
    | none ↦ srv
    | some net ↦ elim (connect_to_upstream dial ring_cap srv.serials i net.config) [
      | ok uc ↦ record srv {
        users =
            insert name (record u { networks = put_at i (introduced uc net.config) u.networks })
              srv.users;
        serials = srv.serials + 1;
      }
      | _ ↦ srv
    ]
  ]
]

-- Its end: the connection is closed, and the network has none. What still points to it is not in the server any more.
unfoldable pub disconnect : Str → ℕ → Server → Server
disconnect name i srv = elim (lookup name srv.users) [
  | none ↦ srv
  | some u ↦ record srv {
    users =
        insert name
          (record u { networks = change_at i (λ net. record net { conn = none }) u.networks })
          srv.users;
  }
]

-- The clients at the places, and the clients with those put back.
unfoldable pub clients_at : List ℕ → List DownstreamConn → List DownstreamConn
clients_at [] clients = []
clients_at (i ∷ is) clients =
    let rest = clients_at is clients in
    elim (get_elem? clients i) [ none ↦ rest | some dc ↦ dc ∷ rest ]

unfoldable pub put_clients :
    List ℕ → List DownstreamConn → List DownstreamConn → List DownstreamConn
put_clients [] dcs clients = clients
put_clients (i ∷ is) [] clients = clients
put_clients (i ∷ is) (dc ∷ dcs) clients = put_clients is dcs (set clients i dc)

-- What a handler of the connection leaves.
abbrev pub put_world : Str → ℕ → User → World → Server → Server
put_world name i u w srv = record srv {
  users = insert name (record u { networks = put_at i w.conn u.networks }) srv.users;
  clients = put_clients u.attached w.downstreams srv.clients;
}

-- What a handler of the connection sees.
abbrev pub world_of : UpstreamConn → Net → User → Server → World
world_of uc net u srv = record {
  conn = uc;
  network = net.config;
  downstreams = clients_at u.attached srv.clients;
}

-- A message of the connection of a user's network at a place, as the loop of `user.run` handles it. Of the
-- user a handler reads and writes the clients, by `forEachDownstream`; of the server, what is in `Env`.
unfoldable pub hear : Env → Str → ℕ → Message → Server → Step Server (Unit {0})
unfolding clients_at put_clients
hear env name i msg srv = elim (lookup name srv.users) [
  | none ↦ (panic, srv)
  | some u ↦ elim (get_elem? u.networks i) [
    | none ↦ (panic, srv)
    | some net ↦ elim net.conn [
      | none ↦ (panic, srv)
      | some uc ↦
          let (r, w) = handle_message env msg (world_of uc net u srv) in
          (r, put_world name i u w srv)
    ]
  ]
]

-- The end of the goroutine that `register` started for reader `r` of the client at a place, once the client is closed: the
-- consumer is closed, and the last client of the user leaves word of where it stopped. A connection that its network has no
-- more is not looked at again.
abbrev pub left_history : Bool → Str → ℕ → UpstreamConn → UpstreamConn
left_history last name seq uc =
    if last then record uc { history = insert name seq uc.history } else uc

unfoldable pub leave : Str → Reader → Server → Result Server
leave name r srv = elim (lookup name srv.users) [
  | none ↦ panic
  | some u ↦ elim (conn_at r.network_ref u.networks) [
    | none ↦ ok srv
    | some uc ↦
        if not (uc.serial == r.serial) then ok srv else elim (Ring.close r.consumer uc.ring) [
          | Prelude.panic ↦ panic
          | Prelude.ok (seq, ring) ↦
              let uc' : UpstreamConn =
                left_history (length u.attached == 0) name seq (record uc { ring = ring }) in
              ok (record srv {
                users =
                    insert name (record u { networks = put_at r.network_ref uc' u.networks })
                      srv.users;
              })
        ]
  ]
]

-- What can happen to a network of a user: its connection is made, or brings a message, or ends, or a reader leaves it.
pub data Event : Type 0 where
  connects : Event
  hears : Message → Event
  disconnects : Event
  leaves : ℕ → ℕ → Event

-- An error is logged and changes no more. `serial` and `consumer` are those of the reader.
unfoldable pub happen : Env → (Str → Bool) → ℕ → Str → ℕ → Event → Server → Server
unfolding connect hear disconnect leave
happen env dial ring_cap name i connects srv = connect dial ring_cap name i srv
happen env dial ring_cap name i (hears msg) srv = (hear env name i msg srv).1
happen env dial ring_cap name i disconnects srv = disconnect name i srv
happen env dial ring_cap name i (leaves serial consumer) srv =
    elim (leave name (record { serial = serial; network_ref = i; consumer = consumer }) srv) [
      | ok srv' ↦ srv'
      | _ ↦ srv
    ]

unfoldable pub happen_all : Env → (Str → Bool) → ℕ → Str → ℕ → List Event → Server → Server
unfolding happen
happen_all env dial ring_cap name i [] srv = srv
happen_all env dial ring_cap name i (event ∷ events) srv =
    happen_all env dial ring_cap name i events (happen env dial ring_cap name i event srv)
