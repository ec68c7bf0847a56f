-- ===== src/Downstream/Routing.antt =====
-- Which server connection a client's channel belongs to, and what a client tells NickServ.
use soju.Prelude.{
  ℕ, ◌≡◌, refl, sym, ap, ◌∙◌, Bool, true, false, not, ◌&&◌, ◌||◌, Option, none, some, List, [], ◌∷◌,
  ◌==◌, ltb, if◌then◌else◌, Option-cases, inl, inr, length, get_or, drop,
}
use soju.Prelude.Text.{Str, codes, str_eq}
use soju.Prelude.Strings.{fields, to_upper}
use soju.Prelude.Dict.{lookup}
use soju.Irc.{Message, Command, Reply}
use soju.Irc.Result.{Result, ok, err, panic, irc_error}
use soju.Conn.{UpstreamConn, UpstreamChannel, DownstreamConn, points_at}

-- Whether `forEachUpstream` of the client visits the connection of a network.
abbrev pub is_visited : DownstreamConn → UpstreamConn → Bool
is_visited dc uc = not (not uc.registered || uc.closed) && points_at dc uc.network_ref

-- The connections that `forEachUpstream` visits, in order; a network without a connection is none.
unfoldable pub upstreams : DownstreamConn → List (Option UpstreamConn) → List UpstreamConn
upstreams dc [] = []
upstreams dc (none ∷ networks) = upstreams dc networks
upstreams dc (some uc ∷ networks) =
    let rest = upstreams dc networks in if is_visited dc uc then uc ∷ rest else rest

-- The last connection that the loop assigns.
abbrev pub last_of : Option UpstreamConn → List UpstreamConn → Option UpstreamConn
last_of found [] = found
last_of found (uc ∷ ucs) = last_of (some uc) ucs

unfoldable pub upstream : DownstreamConn → List (Option UpstreamConn) → Option UpstreamConn
unfolding upstreams
upstream dc networks = elim dc.network [
  | none ↦ none
  | some n ↦ last_of none (upstreams dc networks)
]

-- The variables of the loop of `unmarshalChannel`: the channel with its connection, and whether an
-- error was set.
abbrev pub Search : Type 0
Search = Option (UpstreamConn × UpstreamChannel) × Bool

unfoldable pub search_step : Str → UpstreamConn → Search → Search
search_step name uc (found, failed) =
    if failed then (found, failed) else elim (lookup name uc.channels) [
      | none ↦ (found, failed)
      | some ch ↦ elim found [ none ↦ (some (uc, ch), failed) | some f ↦ (some f, true) ]
    ]

unfoldable pub search_all : Str → List UpstreamConn → Search → Search
unfolding search_step
search_all name [] st = st
search_all name (uc ∷ ucs) st = search_all name ucs (search_step name uc st)

abbrev pub no_such_channel : Str → Message
no_such_channel name = record {
  prefix = none;
  command = Command.reply Reply.err_nosuchchannel;
  params = name ∷ codes "No such channel" ∷ [];
}

-- The error that the search sets is not looked at.
unfoldable pub unmarshal_channel :
    DownstreamConn → List (Option UpstreamConn) → Str → Result (UpstreamConn × Str)
unfolding upstream upstreams search_all
unmarshal_channel dc networks name = elim (upstream dc networks) [
  | some uc ↦ ok (uc, name)
  | none ↦ elim (search_all name (upstreams dc networks) (none, false)).0 [
    | none ↦ err (irc_error (no_such_channel name))
    | some (uc, ch) ↦ ok (uc, ch.name)
  ]
]

-- The first connection that has the channel.
abbrev pub first_with : Str → List UpstreamConn → Option (UpstreamConn × UpstreamChannel)
first_with name [] = none
first_with name (uc ∷ ucs) = elim (lookup name uc.channels) [
  | none ↦ first_with name ucs
  | some ch ↦ some (uc, ch)
]

search_step-missing :
    (name : Str) (uc : UpstreamConn) (st : Search)
    → lookup name uc.channels ≡ none
    → search_step name uc st ≡ st
unfolding search_step
search_step-missing name uc (found, true) e = refl
search_step-missing name uc (found, false) e = rw e refl

search_step-first :
    (name : Str) (uc : UpstreamConn) (ch : UpstreamChannel)
    → lookup name uc.channels ≡ some ch
    → search_step name uc (none, false) ≡ (some (uc, ch), false)
unfolding search_step
search_step-first name uc ch e = rw e refl

-- What has been found stays.
search_step-found :
    (name : Str) (uc : UpstreamConn) (f : UpstreamConn × UpstreamChannel) (failed : Bool)
    → (search_step name uc (some f, failed)).0 ≡ some f
unfolding search_step
search_step-found name uc f true = refl
search_step-found name uc f false = elim (Option-cases (lookup name uc.channels)) [
  | inl missing ↦ rw missing refl
  | inr (ch, found) ↦ rw found refl
]

search_all-found :
    (name : Str) (ucs : List UpstreamConn) (f : UpstreamConn × UpstreamChannel) (st : Search)
    → st.0 ≡ some f
    → (search_all name ucs st).0 ≡ some f
unfolding search_all
search_all-found name [] f st h = h
search_all-found name (uc ∷ ucs) f (found, failed) h =
    search_all-found name ucs f (search_step name uc (found, failed)) (
      ap (λ (o : Option (UpstreamConn × UpstreamChannel)). (search_step name uc (o, failed)).0) h
      ∙ search_step-found name uc f failed)

search_all-first_with :
    (name : Str) (ucs : List UpstreamConn)
    → (search_all name ucs (none, false)).0 ≡ first_with name ucs
unfolding search_all
search_all-first_with name [] = refl
search_all-first_with name (uc ∷ ucs) = elim (Option-cases (lookup name uc.channels)) [
  | inl missing ↦
      ap (λ (st : Search). (search_all name ucs st).0)
        (search_step-missing name uc (none, false) missing)
      ∙ search_all-first_with name ucs
      ∙ sym (skip missing)
  | inr (ch, found) ↦
      search_all-found name ucs (uc, ch) (search_step name uc (none, false))
        (ap (λ (st : Search). st.0) (search_step-first name uc ch found))
      ∙ sym (here found)
]
  where
    branch : Option UpstreamChannel → Option (UpstreamConn × UpstreamChannel)
    branch none = first_with name ucs
    branch (some ch) = some (uc, ch)

    skip : lookup name uc.channels ≡ none → first_with name (uc ∷ ucs) ≡ first_with name ucs
    skip e = ap branch e

    here :
        {ch : UpstreamChannel}
        → lookup name uc.channels ≡ some ch
        → first_with name (uc ∷ ucs) ≡ some (uc, ch)
    here e = ap branch e

-- For a client that is bound to no network, a channel belongs to the first connected network that has it,
-- even if another one has it too; if there is none, the channel is refused as unknown.
pub unmarshal_channel-first_with :
    (dc : DownstreamConn) (networks : List (Option UpstreamConn)) (name : Str)
    → dc.network ≡ none
    → unmarshal_channel dc networks name ≡ (elim (first_with name (upstreams dc networks)) [
      | none ↦ err (irc_error (no_such_channel name))
      | some (uc, ch) ↦ ok (uc, ch.name)
    ])
unfolding unmarshal_channel upstream
unmarshal_channel-first_with dc networks name unbound =
    ap routed none_is ∙ ap choose (search_all-first_with name (upstreams dc networks))
  where
    none_is : upstream dc networks ≡ none
    none_is =
        ap
          (λ (n : Option (Str × ℕ)). elim n [
            | none ↦ none
            | some x ↦ last_of none (upstreams dc networks)
          ])
          unbound

    choose : Option (UpstreamConn × UpstreamChannel) → Result (UpstreamConn × Str)
    choose none = err (irc_error (no_such_channel name))
    choose (some (uc, ch)) = ok (uc, ch.name)

    routed : Option UpstreamConn → Result (UpstreamConn × Str)
    routed (some uc) = ok (uc, name)
    routed none = choose (search_all name (upstreams dc networks) (none, false)).0

abbrev pub identified : List Str → Str → Result (Option (Str × Str))
identified params username =
    if ltb 1 (length params) then ok (some (username, get_or params 1 [])) else panic

-- `parseNickServCredentials`: none if there are too few words; `params[1]` panics where there is one
-- parameter, and an unknown command leaves both results empty.
unfoldable pub parse_credentials : Str → Str → Result (Option (Str × Str))
parse_credentials text nick =
    let words = fields text in
    let cmd = to_upper (get_or words 0 []) in
    let params = drop 1 words in
    if ltb (length words) 2
    then ok none
    else if str_eq cmd (codes "REGISTER")
    then ok (some (nick, get_or params 0 []))
    else if str_eq cmd (codes "IDENTIFY")
    then identified params (if length params == 1 then nick else get_or params 0 [])
    else ok (some ([], []))
