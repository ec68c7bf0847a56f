-- ===== src/Samples.antt =====
-- A user with one server connection and two clients, on which the theorems are tried.
use soju.Prelude.{ℕ, ◌≡◌, arith, true, false, none, some, [], ◌∷◌}
use soju.Prelude.Text.{Str, codes, str_eq_iff}
use soju.Prelude.Dict.{lookup}
use soju.Prelude.Int.{ℤ}
use soju.Conn.{UpstreamChannel, UpstreamConn, DownstreamConn}
use soju.Upstream.{Env, World}
use soju.Upstream.Keeps.{IsConsistent}
use soju.Upstream.Channels.{joined}

-- A database that has no channel, and a server that is asked for nothing.
abbrev pub env : Env
env = record {
  text = λ r. [];
  base64_decode = λ s. some s;
  base64_encode = λ s. s;
  sasl_start = λ c. none;
  sasl_next = λ c s. none;
  list_channels = λ n. none;
  hostname = codes "bouncer";
}

-- The user bob is in #a with alice, who is its operator.
abbrev pub room : UpstreamChannel
room = record (joined (codes "#a")) { members = (codes "alice", b'@') ∷ [] }

abbrev pub bob : UpstreamConn
bob = record {
  serial = 0;
  network_ref = 0;
  outgoing = [];
  ring = record {
    ring = record { buffer = none ∷ none ∷ []; cap = 2; cur = 0; consumers = [] };
    heap = [];
  };
  server_name = [];
  available_user_modes = [];
  available_channel_modes = [];
  channel_modes_with_param = [];
  registered = true;
  nick = codes "bob";
  username = codes "bob";
  realname = codes "bob";
  closed = false;
  modes = [];
  channels = (codes "#a", room) ∷ [];
  caps = [];
  sasl_client = none;
  sasl_started = false;
  history = [];
}

-- A client that is bound to the network at the given place.
abbrev pub client : ℕ → DownstreamConn
client n = record {
  outgoing = [];
  closed = false;
  registered = true;
  user = some (codes "bob");
  nick = codes "bobby";
  username = codes "bob";
  raw_username = codes "bob";
  realname = codes "bob";
  password = [];
  network = some (codes "bob", n);
  negociating_caps = false;
  cap_version = ℤ.pos 0;
  caps = [];
  sasl_server = none;
  our_messages = [];
  readers = [];
}

abbrev pub world : World
world = record {
  conn = bob;
  network = record {
    id = 1;
    addr = codes "irc.example.org:6697";
    nick = codes "bob";
    username = [];
    realname = [];
    pass = [];
    sasl = record { mechanism = []; plain_username = []; plain_password = [] };
  };
  downstreams = client 0 ∷ client 1 ∷ [];
}

pub bob-IsConsistent : IsConsistent bob
unfolding lookup
bob-IsConsistent = record { named = λ k ch e. named k ch e; started = λ e. cc }
  where
    named : (k : Str) (ch : UpstreamChannel) → lookup k bob.channels ≡ some ch → ch.name ≡ k
    named k ch e = ground (arith, str_eq_iff (codes "#a") k, str_eq_iff k (codes "#a"))
