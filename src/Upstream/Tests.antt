-- ===== src/Upstream/Tests.antt =====
-- Runs of the handlers of a server connection, and the theorems at concrete inputs.
use Prim.Native.String.{String}
use soju.Prelude.{
  get_or, ◌++◌, ℕ, ap, ◌≡◌, ◌≢◌, refl, true, false, none, some, List, [], ◌∷◌, arith, contains,
  get_elem?, get_or, if◌then◌else◌, ◌+◌, ◌<◌, ◌^◌,
}
use soju.Prelude.Text.{str_eq, Str, codes, str_eq}
use soju.Prelude.Strings.{split_at}
use soju.Prelude.Dict.{lookup, insert}
use soju.Irc.{Message, Command, Prefix}
use soju.Irc.Result.{ok, panic}
use soju.Irc.Params.{parse_message_params}
use soju.Ring.Invariant.{IsRing}
use soju.Conn.{SaslClient, marshal_user_prefix}
use soju.Samples.{bob-IsConsistent, env, room, bob, client, world}
use soju.Upstream.{Env, World, ◌>>=◌, command}
use soju.Upstream.Broadcast.{for_each_downstream, visit}
use soju.Upstream.Channels.{
  joined, get_channel, each_channel, join_channel, part_channel, handle_join, handle_part,
  handle_quit, handle_nick,
}
use soju.Upstream.Handle.{handle_message, handle_all}
use soju.Upstream.Keeps.{IsConsistent}
use soju.Upstream.Invariant.{handle_message-IsConsistent, handle_message_isolates}
use soju.Upstream.Authenticate.{decode_challenge}
use soju.Upstream.Negotiation.{exchange, exchange_lem}
use soju.Upstream.Success.{handle_join_succeeds, handle_join_own_succeeds}
use soju.Upstream.Ready.{IsReady, handle_message_Ready, handle_all_Ready}
use soju.Upstream.Membership.{member}
use soju.Upstream.Tracking.{
  handle_join-member, handle_part-member, handle_join-own, handle_part-own,
}
use soju.Upstream.Users.{handle_quit-member, handle_nick-member, handle_nick-own_told}

abbrev user : String → Prefix
user s = record { name = codes s; user = []; host = [] }

abbrev said : String → Command → List Str → Message
said s cmd params = record { prefix = some (user s); command = cmd; params = params }

abbrev carol_joins : Message
carol_joins = said "carol" Command.join (codes "#a" ∷ [])

abbrev alice_parts : Message
alice_parts = said "alice" Command.part (codes "#a" ∷ [])

abbrev bob_joins : Message
bob_joins = said "bob" Command.join (codes "#b" ∷ [])

abbrev bob_parts : Message
bob_parts = said "bob" Command.part (codes "#a" ∷ [])

abbrev alice_quits : Message
alice_quits = said "alice" Command.quit (codes "bye" ∷ [])

abbrev alice_renames : Message
alice_renames = said "alice" Command.nick (codes "ann" ∷ [])

abbrev bob_renames : Message
bob_renames = said "bob" Command.nick (codes "rob" ∷ [])

bob-IsRing : IsRing [] bob.ring
bob-IsRing = record {
  cap_pos = omega arith;
  size = refl;
  cursor = refl;
  small = omega arith;
  holds = λ j a n e. cc;
  attached = λ rc h. cc;
  distinct = tt;
}

abbrev ready : (n : ℕ) → 0 + n < 2 ^ 64 → IsReady n world
ready n room = record {
  consistent = bob-IsConsistent;
  is_open = refl;
  log = [];
  ring = bob-IsRing;
  room = room;
}

handle_message-IsConsistent_example : IsConsistent (handle_message env carol_joins world).1.conn
handle_message-IsConsistent_example =
    handle_message-IsConsistent env carol_joins world bob-IsConsistent

handle_message_isolates_example :
    get_elem? (handle_message env alice_parts world).1.downstreams 1 ≡ some (client 1)
unfolding str_eq
handle_message_isolates_example =
    handle_message_isolates env alice_parts world bob-IsConsistent 1 (client 1) refl refl

handle_message_Ready_example :
    IsReady 3 (handle_message env carol_joins world).1
    × ((handle_message env carol_joins world).0 ≢ panic)
handle_message_Ready_example =
    handle_message_Ready 3 env carol_joins world tt (ready 4 (omega arith))

handle_all_Ready_example :
    IsReady 3 (handle_all env (carol_joins ∷ alice_quits ∷ []) world).1
    × ((handle_all env (carol_joins ∷ alice_quits ∷ []) world).0 ≡ ok tt)
handle_all_Ready_example =
    handle_all_Ready 3 env (carol_joins ∷ alice_quits ∷ []) world (tt, (tt, tt))
      (ready 5 (omega arith))

handle_join-member_example :
    member (handle_join env carol_joins world).1.conn (codes "#a") (codes "carol") ≡ some 0
unfolding handle_join ◌>>=◌ parse_message_params each_channel join_channel get_channel
    for_each_downstream visit str_eq split_at lookup insert
handle_join-member_example =
    handle_join-member env carol_joins (user "carol") (codes "#a") world
      (record { sender = refl; rest = []; params = refl }) (codes "#a") (codes "carol") refl refl

handle_part-member_example :
    member (handle_part env alice_parts world).1.conn (codes "#a") (codes "alice") ≡ none
unfolding handle_part ◌>>=◌ parse_message_params each_channel part_channel get_channel
    for_each_downstream visit str_eq split_at lookup insert
handle_part-member_example =
    handle_part-member env alice_parts (user "alice") (codes "#a") world
      (record { sender = refl; rest = []; params = refl }) (codes "#a") (codes "alice") refl refl

handle_join-own_example :
    lookup (codes "#b") (handle_join env bob_joins world).1.conn.channels
    ≡ some (joined (codes "#b"))
unfolding handle_join ◌>>=◌ parse_message_params each_channel join_channel get_channel
    for_each_downstream visit str_eq split_at lookup insert
handle_join-own_example =
    handle_join-own env bob_joins (user "bob") (codes "#b") world
      (record { sender = refl; rest = []; params = refl }) (codes "#b") refl refl

handle_part-own_example :
    lookup (codes "#a") (handle_part env bob_parts world).1.conn.channels ≡ none
unfolding handle_part ◌>>=◌ parse_message_params each_channel part_channel get_channel
    for_each_downstream visit str_eq split_at lookup insert
handle_part-own_example =
    handle_part-own env bob_parts (user "bob") (codes "#a") world
      (record { sender = refl; rest = []; params = refl }) (codes "#a") refl refl

handle_quit-member_example :
    ((handle_quit alice_quits world).0 ≡ ok tt)
    × ((k q : Str)
        → member (handle_quit alice_quits world).1.conn k q
          ≡ (if str_eq (codes "alice") q then none else member bob k q))
    × ((handle_quit alice_quits world).1.downstreams
        ≡ record (client 0) { outgoing = alice_quits ∷ [] } ∷ client 1 ∷ [])
unfolding str_eq marshal_user_prefix
handle_quit-member_example = handle_quit-member alice_quits (user "alice") world refl

handle_nick-member_example :
    ((handle_nick env alice_renames world).0 ≡ ok tt)
    × ((handle_nick env alice_renames world).1.conn.nick ≡ codes "bob")
    × ((k q : Str)
        → member (handle_nick env alice_renames world).1.conn k q
          ≡ (elim (member bob k (codes "alice")) [
            | none ↦ member bob k q
            | some m ↦
                if str_eq (codes "ann") q
                then some m
                else if str_eq (codes "alice") q
                then none
                else member bob k q
          ]))
unfolding str_eq
handle_nick-member_example =
    handle_nick-member env alice_renames (user "alice") (codes "ann") world
      (record { sender = refl; rest = []; params = refl })

-- The client calls itself bobby, and is told of a change of bob to rob.
handle_nick-own_told_example :
    (handle_nick env bob_renames world).1.downstreams
    ≡ record (client 0) { outgoing = bob_renames ∷ [] } ∷ client 1 ∷ []
unfolding str_eq
handle_nick-own_told_example =
    handle_nick-own_told env bob_renames (user "bob") (codes "rob") world
      (record { sender = refl; rest = []; params = refl }) refl
      (λ e. apart (ap (λ (s : Str). contains s b'r') e))
  where
    apart : false ≢ true
    apart h = cc

abbrev client_of_sasl : SaslClient
client_of_sasl = record {
  identity = [];
  username = codes "bob";
  password = codes "pw";
  challenges = [];
}

-- A client of package go-sasl that answers a challenge with it and with the first one it was given.
abbrev sasl_env : Env
sasl_env = record env {
  sasl_start = λ c. some none;
  sasl_next = λ c s. some (some (s ++ get_or c.challenges 0 []));
}

abbrev challenge_of : String → Message
challenge_of s = command Command.authenticate (codes s ∷ [])

abbrev sasl_world : World
sasl_world = record world { conn = record bob { sasl_client = some client_of_sasl } }

exchange_lem_example :
    ((exchange sasl_env
        (challenge_of "+" ∷ challenge_of "a" ∷ challenge_of "b" ∷ [])
        sasl_world).conn.outgoing
      ≡ challenge_of "+" ∷ challenge_of "a" ∷ challenge_of "ba" ∷ [])
    × ((exchange sasl_env
          (challenge_of "+" ∷ challenge_of "a" ∷ challenge_of "b" ∷ [])
          sasl_world).conn.sasl_client
        ≡ some (record client_of_sasl { challenges = codes "a" ∷ codes "b" ∷ [] }))
unfolding decode_challenge str_eq
exchange_lem_example =
    exchange_lem sasl_env (challenge_of "+") (challenge_of "a" ∷ challenge_of "b" ∷ []) []
      (codes "a" ∷ codes "b" ∷ []) sasl_world client_of_sasl refl refl refl
      (
        (codes "+", [], refl, refl),
        ((codes "a", [], refl, refl), ((codes "b", [], refl, refl), tt)),
      )

handle_join_succeeds_example :
    ((handle_join env carol_joins world).0 ≡ ok tt)
    × ((handle_part env carol_joins world).0 ≡ ok tt)
unfolding split_at lookup str_eq
handle_join_succeeds_example =
    handle_join_succeeds env carol_joins (user "carol") (codes "#a") world
      (record { sender = refl; rest = []; params = refl }) refl (refl, tt)

handle_join_own_succeeds_example :
    ((handle_join env bob_joins world).0 ≡ ok tt) × ((handle_part env bob_joins world).0 ≡ ok tt)
handle_join_own_succeeds_example =
    handle_join_own_succeeds env bob_joins (user "bob") (codes "#b") world
      (record { sender = refl; rest = []; params = refl }) refl
