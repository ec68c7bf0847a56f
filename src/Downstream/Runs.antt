-- ===== src/Downstream/Runs.antt =====
-- Runs of whole sessions, and the theorems about them at concrete inputs.
use mathlib.Core.Option
use soju.Prelude.{
  ◌∙◌, ◌⊎◌, inl, inr, zero, suc, sym, ap, subst, ◌≡◌, All, if◌then◌else◌, refl, Bool, true, false,
  Option, none, some, List, [], ◌∷◌, ◌++◌,
}
use soju.Prelude.Text.{Str, codes, str_eq}
use soju.Prelude.Strings.{split, split_at}
use soju.Prelude.Dict.{Dict, lookup}
use soju.Irc.{Message, Command}
use soju.Conn.{UpstreamConn, DownstreamConn}
use soju.Db.Store.{Sql, store_network}
use soju.User.{User}
use soju.Irc.Result.{ok}
use soju.Ring.{Memory}
use soju.Ring.Invariant.{IsRing}
use soju.Downstream.Routing.{unmarshal_channel, upstream, upstreams}
use soju.Downstream.Registered.{say, handle_registered, nick}
use soju.Downstream.Said.{Said, after_say, echo_of, say-Said}
use soju.Prelude.{arith}
use soju.Prelude.Dict.{insert}
use soju.Irc.Action.{◌>>=◌}
use soju.Irc.Params.{parse_message_params}
use soju.Downstream.Names.{unmarshal_username, before_first, behind_last}
use soju.Downstream.Unregistered.{authenticate, set_network}
use soju.Downstream.Register.{
  attach_all, attach_upstreams, enter, identify, register, unregistered_command,
  handle_unregistered,
}
use soju.Downstream.Handle.{handle_message, until_registered, serve}
use soju.Downstream.Admission.{until_registered-serve_all}
use soju.Samples.{bob, client, world}
use soju.Downstream.Session.{send_upstreams, SaslStep, challenge, check, failed, Outside, Session}
use soju.Downstream.Handle.{serve_all}
use soju.Downstream.Frame.{IsPlaced}
use soju.Downstream.Isolation.{IsConfined, serve_all-IsConfined}
use soju.Downstream.Strangers.{IsWrong, IsStranger}
use soju.Downstream.Strangers.Registration.{serve_all-IsStranger}

-- A database that takes everything, and passwords that are kept as they are. The SASL server asks once, and then reads the
-- response.
abbrev sql : Sql
sql = record {
  exec = λ journal. some (some 7);
  query_users = λ journal. some [];
  query_networks = λ journal name. some [];
  query_channels = λ journal id. some [];
}

-- PLAIN: an identity, a user name and a password, behind each but the last a zero byte.
abbrev plain_read : List Str → SaslStep
plain_read (identity ∷ username ∷ password ∷ []) = check identity username password
plain_read parts = failed

abbrev plain_step : Option Str → SaslStep
plain_step none = failed
plain_step (some text) = plain_read (split text 0)

abbrev plain_next : List (Option Str) → SaslStep
plain_next [] = challenge none
plain_next (x ∷ []) = challenge none
plain_next (x ∷ y ∷ zs) = plain_step y

abbrev outside : Outside
outside = record {
  hostname = codes "bouncer";
  text = λ r. [];
  message_text = λ m. [];
  quote = λ s. s;
  base64_decode = λ s. some s;
  base64_encode = λ s. s;
  plain_next = plain_next;
  check_password = λ hash password. str_eq hash password;
  dial = λ addr. true;
  sql = sql;
}

abbrev bobs : User
bobs = record {
  password = codes "secret";
  networks = record { config = world.network; conn = some bob } ∷ [];
  attached = [];
}

abbrev eves : User
eves = record { password = codes "eves"; networks = []; attached = [] }

abbrev users : Dict User
users = (codes "bob", bobs) ∷ (codes "eve", eves) ∷ []

-- A client that has just connected.
abbrev guest : DownstreamConn
guest = record (client 0) {
  registered = false;
  user = none;
  network = none;
  nick = [];
  username = [];
  raw_username = [];
  realname = [];
}

abbrev fresh : Session
fresh = record { self = 3; client = guest; users = users; journal = [] }

abbrev command : Command → List Str → Message
command cmd params = record { prefix = none; command = cmd; params = params }

abbrev login : Str → Str → List Message
login name password =
    command Command.pass (password ∷ [])
    ∷ command Command.nick (codes "guest" ∷ [])
    ∷ command Command.user (name ∷ codes "0" ∷ codes "*" ∷ codes "Guest" ∷ [])
    ∷ []

bob-IsPlaced : IsPlaced bobs.networks
bob-IsPlaced zero uc e =
    ap (λ (x : UpstreamConn). x.network_ref) (sym (Option.some-injective bob uc e))
bob-IsPlaced (suc j) uc e = absurd (Option.none-ne-some uc e)

eve-IsPlaced : IsPlaced eves.networks
eve-IsPlaced j uc e = absurd (Option.none-ne-some uc e)

-- What every entry has, the one that is found has.
found-IsPlaced :
    (m : Dict User)
    → All (λ (x : Str × User). IsPlaced x.1.networks) m
    → (other : Str) (v : User) → lookup other m ≡ some v
    → IsPlaced v.networks
unfolding lookup
found-IsPlaced [] all other v e = absurd (Option.none-ne-some v e)
found-IsPlaced ((k, u) ∷ m) (here, later) other v e =
    either (str_eq k other) e (found-IsPlaced m later other v)
  where
    either :
        (b : Bool)
        → (if b then some u else lookup other m) ≡ some v
        → (lookup other m ≡ some v → IsPlaced v.networks)
        → IsPlaced v.networks
    either true h rest =
        subst (λ (x : User). IsPlaced x.networks) (Option.some-injective u v h) here
    either false h rest = rest h

users-IsPlaced : (other : Str) (v : User) → lookup other users ≡ some v → IsPlaced v.networks
users-IsPlaced = found-IsPlaced users (bob-IsPlaced, (eve-IsPlaced, tt))

-- What eve tells the SASL server: the mechanism, and her name with her password.
abbrev eves_response : Str
eves_response = 0 ∷ codes "eve" ++ 0 ∷ codes "eves"

abbrev EvesResponses : Option Str → Type 0
EvesResponses r = (r ≡ none) ⊎ ((r ≡ some (codes "PLAIN")) ⊎ (r ≡ some eves_response))

bob-IsWrong : IsWrong outside EvesResponses (codes "secret")
unfolding str_eq split_at
bob-IsWrong = record {
  empty = refl;
  no_text = inl refl;
  sasl = λ given identity username password said e. wrong given said e;
}
  where
    password_of : SaslStep → Str
    password_of (check i u p) = p
    password_of s = []

    read :
        {identity username password : Str} (r : Option Str)
        → EvesResponses r
        → plain_step r ≡ check identity username password
        → str_eq (codes "secret") password ≡ false
    read r (inl same) e = absurd_step (sym (ap plain_step same) ∙ e)
      where
        absurd_step :
            {i u p : Str} → SaslStep.failed ≡ check i u p → str_eq (codes "secret") p ≡ false
        absurd_step h = cc
    read r (inr (inl same)) e = absurd_step (sym (ap plain_step same) ∙ e)
      where
        absurd_step :
            {i u p : Str} → SaslStep.failed ≡ check i u p → str_eq (codes "secret") p ≡ false
        absurd_step h = cc
    read r (inr (inr same)) e = rw⁻¹ (ap password_of (sym (ap plain_step same) ∙ e)) refl

    wrong :
        (given : List (Option Str)) {identity username password : Str}
        → All EvesResponses given
        → plain_next given ≡ check identity username password
        → str_eq (codes "secret") password ≡ false
    wrong [] said e = cc
    wrong (x ∷ []) said e = cc
    wrong (x ∷ y ∷ zs) (first, (here, later)) e = read y here e

-- Eve logs in by SASL, and has her messages served.
abbrev eves_messages : List Message
eves_messages =
    command Command.capability (codes "REQ" ∷ codes "sasl" ∷ [])
      ∷ command Command.nick (codes "eve" ∷ [])
      ∷ command Command.authenticate (codes "PLAIN" ∷ [])
      ∷ command Command.authenticate (eves_response ∷ [])
      ∷ login (codes "eve") (codes "eves")
    ++ command Command.capability (codes "END" ∷ []) ∷ command Command.join (codes "#a" ∷ []) ∷ []

serve_all-IsStranger_example :
    IsStranger outside EvesResponses (codes "bob") bobs (serve_all outside eves_messages fresh)
unfolding lookup str_eq
serve_all-IsStranger_example =
    serve_all-IsStranger outside EvesResponses eves_messages fresh (codes "bob") bobs refl
      (λ e. Option.none-ne-some (codes "bob") e) (λ i e. Option.none-ne-some (codes "bob", i) e)
      (λ before e. absurd (Option.none-ne-some before e)) refl bob-IsWrong
      (
        (λ e. cc, λ e. cc),
        (
          (λ e. cc, λ e. cc),
          (
            (λ e. cc, λ e resp d. inr (inl (sym d))),
            (
              (λ e. cc, λ e resp d. inr (inr (sym d))),
              (
                (λ e. refl, λ e. cc),
                (
                  (λ e. cc, λ e. cc),
                  ((λ e. cc, λ e. cc), ((λ e. cc, λ e. cc), ((λ e. cc, λ e. cc), tt))),
                ),
              ),
            ),
          ),
        ),
      )
      users-IsPlaced

-- Bob speaks, and changes his nick.
abbrev bobs_session : Session
bobs_session = record { self = 3; client = client 0; users = users; journal = [] }

abbrev talk : List Message
talk =
    command Command.privmsg (codes "#a,NickServ" ∷ codes "identify bob hunter2" ∷ [])
    ∷ command Command.nick (codes "bill" ∷ [])
    ∷ []

serve_all-IsConfined_example :
    IsConfined users (codes "bob") bobs 0 (serve_all outside talk bobs_session)
unfolding lookup str_eq
serve_all-IsConfined_example =
    serve_all-IsConfined outside talk bobs_session (codes "bob") bobs 0 refl refl refl refl
      bob-IsPlaced

bob_ring-IsRing : IsRing [] bob.ring
bob_ring-IsRing = record {
  cap_pos = omega arith;
  size = refl;
  cursor = refl;
  small = omega arith;
  holds = λ j a n e. cc;
  attached = λ rc h. cc;
  distinct = tt;
}

say-Said_example :
    (ring : Memory Message) × (s' : Session) × (say outside
        (codes "hello")
        (codes "#a")
        bobs_session
      ≡ (ok tt, s'))
    × IsRing (echo_of bob.nick bob.username (codes "#a") (codes "hello") ∷ []) ring
    × Said bobs_session s'
        (codes "bob")
        bobs
        bob
        (after_say (codes "#a") (codes "hello") ring bob)
        0
unfolding lookup str_eq unmarshal_channel upstream upstreams
say-Said_example =
    say-Said outside (codes "hello") (codes "#a") (codes "#a") bobs_session (codes "bob") bobs bob
      [] refl refl refl refl refl bob_ring-IsRing (omega arith)

-- Eve's session, once she is registered.
abbrev eves_session : Session
eves_session = serve_all outside (login (codes "eve") (codes "eves")) fresh

until_registered-serve_all_example :
    (handled : List Message) × (login (codes "eve") (codes "eves")
        ++ command Command.join (codes "#a" ∷ []) ∷ []
      ≡ handled ++ command Command.join (codes "#a" ∷ []) ∷ [])
    × (serve_all outside handled fresh ≡ eves_session)
    × (eves_session.client.registered ≡ true)
unfolding until_registered serve_all serve handle_message handle_unregistered unregistered_command
    parse_message_params register identify authenticate set_network enter attach_upstreams
    attach_all ◌>>=◌ lookup insert str_eq unmarshal_username before_first behind_last
until_registered-serve_all_example =
    until_registered-serve_all outside
      (login (codes "eve") (codes "eves") ++ command Command.join (codes "#a" ∷ []) ∷ [])
      (command Command.join (codes "#a" ∷ []) ∷ []) fresh eves_session refl

-- A client that logged in as bob before it registered as eve: its NICK goes to the network of bob.
abbrev twice : Session
twice = record {
  self = 3;
  client = record (client 0) { user = some (codes "eve") };
  users = users;
  journal = [];
}

run_nick_twice :
    (serve_all outside (command Command.nick (codes "mallory" ∷ []) ∷ []) twice).users
    ≡ (
      codes "bob",
      record bobs {
        networks =
            record { config = record world.network { nick = codes "mallory" }; conn = some bob }
            ∷ [];
      },
    )
      ∷ (codes "eve", eves)
      ∷ []
unfolding serve_all serve handle_message parse_message_params ◌>>=◌ lookup insert str_eq
    handle_registered nick store_network send_upstreams
run_nick_twice = refl
