-- ===== src/Server/Tests.antt =====
-- A server with a user, whose network is connected.
use mathlib.Core.Option
use soju.Prelude.{
  ℕ, zero, suc, ◌≡◌, refl, ap, ◌∙◌, subst, Bool, true, false, none, some, List, [], ◌∷◌,
  if◌then◌else◌,
}
use soju.Prelude.Text.{Str, codes, str_eq}
use soju.Prelude.Dict.{lookup}
use soju.Irc.{Command}
use soju.Samples.{env, bob, bob-IsConsistent, client, world}
use soju.Conn.{UpstreamConn}
use soju.User.{User}
use soju.Downstream.Session.{conn_at}
use soju.Server.{Server, new_server}
use soju.Server.Networks.{Event, connects, hears, disconnects, leaves}
use soju.Server.Sound.{IsGood, IsSound, run, run-IsSound}

abbrev bobs : User
bobs = record {
  password = codes "secret";
  networks =
      record { config = world.network; conn = some bob }
      ∷ record { config = world.network; conn = none }
      ∷ [];
  attached = 1 ∷ [];
}

abbrev server : Server
server = record new_server {
  users = (codes "bob", bobs) ∷ [];
  clients = client 1 ∷ client 0 ∷ [];
  live = 0 ∷ 1 ∷ [];
  serials = 1;
}

server-IsSound : IsSound server
unfolding lookup
server-IsSound name u found = either (str_eq (codes "bob") name) found
  where
    at_place : (j : ℕ) (uc : UpstreamConn) → conn_at j bobs.networks ≡ some uc → IsGood j uc
    at_place zero uc e = subst (IsGood 0) (Option.some-injective bob uc e) (refl, bob-IsConsistent)
    at_place (suc zero) uc e = absurd (Option.none-ne-some uc e)
    at_place (suc (suc j)) uc e = absurd (Option.none-ne-some uc e)

    either :
        (b : Bool)
        → (if b then some bobs else none) ≡ some u
        → (j : ℕ) (uc : UpstreamConn) → conn_at j u.networks ≡ some uc
        → IsGood j uc
    either true e j uc at =
        at_place j uc
          (ap (λ (x : User). conn_at j x.networks) (Option.some-injective bobs u e) ∙ at)
    either false e j uc at = absurd (Option.none-ne-some u e)

-- A PRIVMSG and our own JOIN come, the connection is lost and made again, and the other network is connected.
abbrev events : List (Str × ℕ × Event)
events =
    (
      codes "bob",
      0,
      hears (record {
        prefix = none;
        command = Command.privmsg;
        params = codes "#a" ∷ codes "hello" ∷ [];
      }),
    )
    ∷ (
      codes "bob",
      0,
      hears (record {
        prefix = some (record { name = codes "bob"; user = []; host = [] });
        command = Command.join;
        params = codes "#b" ∷ [];
      }),
    )
    ∷ (codes "bob", 0, disconnects)
    ∷ (codes "bob", 1, connects)
    ∷ (codes "bob", 0, connects)
    ∷ (codes "bob", 0, leaves 0 0)
    ∷ []

run-IsSound_example : IsSound (run env (λ addr. true) 4096 events server)
run-IsSound_example = run-IsSound env (λ addr. true) 4096 events server server-IsSound
