-- ===== src/Upstream/Membership.antt =====
-- Who is in which channel, and what JOIN, PART, QUIT and NICK do to it.
use soju.Prelude.{
  ℕ, ◌≡◌, ◌⊎◌, refl, sym, ap, ◌∙◌, Bool, false, ◌&&◌, ◌||◌, Option, none, some, List, [], ◌∷◌,
  if◌then◌else◌, arith, Bool-cases, Option-cases, inl, inr, map,
}
use soju.Prelude.Text.{Str, str_eq, str_eq_iff}
use soju.Prelude.Dict.{Dict, lookup, insert, delete, lookup-insert, lookup-delete}
use soju.Irc.{Prefix, Message, Command}
use soju.Irc.Result.{Result, ok, err, panic, unknown_channel, Step}
use soju.Conn.{UpstreamChannel, UpstreamConn, DownstreamConn, marshal_channel}
use soju.Upstream.{World, Handler, continue, ◌>>=◌}
use soju.Upstream.Broadcast.{broadcast, broadcast_lem, told}
use soju.Upstream.Channels.{get_channel, join_channel, part_channel, each_channel, from_user}

-- The membership of a user in a channel, if the connection is in the channel and has seen the user there.
abbrev pub member : UpstreamConn → Str → Str → Option ℕ
member uc name nick = elim (lookup name uc.channels) [
  | none ↦ none
  | some ch ↦ lookup nick ch.members
]

-- Whether a name is among some names.
abbrev pub listed : Str → List Str → Bool
listed k [] = false
listed k (name ∷ names) = str_eq name k || listed k names

module _ {A B : Type 0} (m : Handler A) (f : A → Handler B) (w : World) where
  -- A block that succeeds has succeeded at its first step.
  pub bind-ok :
      (b : B) → ((m >>= f) w).0 ≡ ok b → (a : A) × ((m w).0 ≡ ok a) × ((m >>= f) w ≡ f a (m w).1)
  unfolding ◌>>=◌
  bind-ok b e = go (m w).0 (m w).1 e
    where
      go :
          (r : Result A) (w' : World)
          → (continue r f w').0 ≡ ok b
          → (a : A) × (r ≡ ok a) × (continue r f w' ≡ f a w')
      go (ok a) w' e' = (a, refl, refl)
      go (err x) w' e' = cc
      go panic w' e' = cc

  pub bind-run : (a : A) → (m w).0 ≡ ok a → (m >>= f) w ≡ f a (m w).1
  unfolding ◌>>=◌
  bind-run a e = ap (λ (r : Result A). continue r f (m w).1) e

-- Each step of the loop sets the view of one channel by `val`, which is settled by one step.
module _ {X : Type 0} (view : UpstreamConn → Str → X) (val : Str → X → X)
    (settled : (k : Str) (x : X) → val k (val k x) ≡ val k x) (same : (uc : UpstreamConn) → Type 0)
    (change : Str → Handler (Unit {0}))
    (step : (name : Str) (w : World)
      → same w.conn
      → (change name w).0 ≡ ok tt
      → same (change name w).1.conn
        × ((k : Str)
            → view (change name w).1.conn k
              ≡ (if str_eq name k then val k (view w.conn k) else view w.conn k))) where
  pub each_channel_view :
      (cmd : Command) (p : Prefix) (names : List Str) (w : World)
      → same w.conn
      → (each_channel change cmd p names w).0 ≡ ok tt
      → (k : Str)
      → view (each_channel change cmd p names w).1.conn k
        ≡ (if listed k names then val k (view w.conn k) else view w.conn k)
  unfolding each_channel
  each_channel_view cmd p [] w s e k = refl
  each_channel_view cmd p (name ∷ names) w s e k =
      let (a, e1, run1) = bind-ok (change name) (λ _. loop) w tt e in
      let w1 : World = (change name w).1 in
      let (s1, set1) = step name w s e1 in
      let run : each_channel change cmd p (name ∷ names) w
          ≡ each_channel change cmd p names (spread w1) =
        run1
        ∙ bind-run (broadcast f) (λ _. each_channel change cmd p names) w1 tt
            (ap (λ (o : Step World (Unit {0})). o.0) (broadcast_lem f w1))
        ∙ ap (λ (o : Step World (Unit {0})). each_channel change cmd p names o.1)
            (broadcast_lem f w1) in
      let ih =
        each_channel_view cmd p names (spread w1) s1
          (ap (λ (o : Step World (Unit {0})). o.0) (sym run) ∙ e) k in
      ap (λ (o : Step World (Unit {0})). view o.1.conn k) run
      ∙ ih
      ∙ ground (arith, set1 k, settled k (view w.conn k))
    where
      f : UpstreamConn → DownstreamConn → Message
      f = from_user p cmd (marshal_channel name ∷ [])

      loop : Handler (Unit {0})
      loop = broadcast f >>= λ _. each_channel change cmd p names

      spread : World → World
      spread w1 = record w1 {
        downstreams = map (told w1.conn.network_ref (f w1.conn)) w1.downstreams;
      }

-- The connection's nick is `nick`.
abbrev pub HasNick : Str → UpstreamConn → Type 0
HasNick nick uc = uc.nick ≡ nick

-- JOIN and PART of another user touch the members of one channel.
abbrev pub changed : (Dict ℕ → Dict ℕ) → UpstreamChannel → UpstreamChannel
changed f ch = record ch { members = f ch.members }

-- The membership of `q` after the members of one channel changed.
member-changed :
    (f : Dict ℕ → Dict ℕ) (q : Str) (set : Option ℕ → Option ℕ)
    → ((members : Dict ℕ) → lookup q (f members) ≡ set (lookup q members))
    → (name : Str) (uc : UpstreamConn) (ch : UpstreamChannel) → lookup name uc.channels ≡ some ch
    → (k : Str)
    → member (record uc { channels = insert name (changed f ch) uc.channels }) k q
      ≡ (if str_eq name k then set (member uc k q) else member uc k q)
member-changed f q set law name uc ch e k = elim (Bool-cases (str_eq name k)) [
  | inl here ↦
      let p : name ≡ k = (str_eq_iff name k).0 here in
      ground (
        arith,
        lookup-insert name k (changed f ch) uc.channels,
        law ch.members,
        ap (λ (n : Str). lookup n uc.channels) p,
        e,
      )
  | inr there ↦ ground (arith, lookup-insert name k (changed f ch) uc.channels)
]

-- The state after the members of the channel `name`, found as `ch`, changed by `f`.
abbrev pub with_members : (Dict ℕ → Dict ℕ) → Str → UpstreamChannel → World → World
with_members f name ch w = record w {
  conn = record w.conn { channels = insert name (changed f ch) w.conn.channels };
}

-- A step of JOIN or PART for another user, on which nothing is known but that it looks a channel up and
-- changes its members.
abbrev pub Touches : (Dict ℕ → Dict ℕ) → Str → (Str → Handler (Unit {0})) → Type 0
Touches f nick change =
    (name : Str) (w : World)
    → w.conn.nick ≡ nick
    → ((lookup name w.conn.channels ≡ none) × (change name w ≡ (err (unknown_channel name), w)))
      ⊎ ((ch : UpstreamChannel) × (lookup name w.conn.channels ≡ some ch)
          × (change name w ≡ (ok tt, with_members f name ch w)))

Touches-step :
    (f : Dict ℕ → Dict ℕ) (nick q : Str) (change : Str → Handler (Unit {0}))
    (set : Option ℕ → Option ℕ)
    → ((members : Dict ℕ) → lookup q (f members) ≡ set (lookup q members))
    → Touches f nick change
    → (name : Str) (w : World) → HasNick nick w.conn
    → (change name w).0 ≡ ok tt
    → HasNick nick (change name w).1.conn
      × ((k : Str)
          → member (change name w).1.conn k q
            ≡ (if str_eq name k then set (member w.conn k q) else member w.conn k q))
Touches-step f nick q change set law touches name w n e = go (touches name w n)
  where
    go :
        ((lookup name w.conn.channels ≡ none) × (change name w ≡ (err (unknown_channel name), w)))
          ⊎ ((ch : UpstreamChannel) × (lookup name w.conn.channels ≡ some ch)
              × (change name w ≡ (ok tt, with_members f name ch w)))
        → HasNick nick (change name w).1.conn
          × ((k : Str)
              → member (change name w).1.conn k q
                ≡ (if str_eq name k then set (member w.conn k q) else member w.conn k q))
    go (inl (missing, run)) = cc (e, ap (λ (o : Step World (Unit {0})). o.0) run)
    go (inr (ch, found, run)) = (
      ap (λ (o : Step World (Unit {0})). o.1.conn.nick) run ∙ n,
      λ k.
          ap (λ (o : Step World (Unit {0})). member o.1.conn k q) run
          ∙ member-changed f q set law name w.conn ch found k,
    )

pub join_channel-Touches :
    (p : Prefix) (nick : Str)
    → str_eq p.name nick ≡ false
    → Touches (insert p.name 0) nick (join_channel p)
unfolding join_channel get_channel ◌>>=◌
join_channel-Touches p nick ne name w n = elim (Option-cases (lookup name w.conn.channels)) [
  | inl missing ↦ inl (missing, ground (arith, ap (str_eq p.name) n))
  | inr (ch, found) ↦ inr (ch, found, ground (arith, ap (str_eq p.name) n))
]

pub part_channel-Touches :
    (p : Prefix) (nick : Str)
    → str_eq p.name nick ≡ false
    → Touches (delete p.name) nick (part_channel p)
unfolding part_channel get_channel ◌>>=◌
part_channel-Touches p nick ne name w n = elim (Option-cases (lookup name w.conn.channels)) [
  | inl missing ↦ inl (missing, ground (arith, ap (str_eq p.name) n))
  | inr (ch, found) ↦ inr (ch, found, ground (arith, ap (str_eq p.name) n))
]

pub join-member :
    (p : Prefix) (names : List Str) (w : World) (k q : Str)
    → str_eq p.name w.conn.nick ≡ false
    → (each_channel (join_channel p) Command.join p names w).0 ≡ ok tt
    → member (each_channel (join_channel p) Command.join p names w).1.conn k q
      ≡ (if listed k names && str_eq p.name q then some 0 else member w.conn k q)
join-member p names w k q other e =
    each_channel_view (λ uc name. member uc name q)
      (λ name x. if str_eq p.name q then some 0 else x) (λ name x. ground arith)
      (HasNick w.conn.nick) (join_channel p)
      (Touches-step (insert p.name 0) w.conn.nick q (join_channel p)
        (λ x. if str_eq p.name q then some 0 else x) (λ members. lookup-insert p.name q 0 members)
        (join_channel-Touches p w.conn.nick other))
      Command.join p names w refl e k
    ∙ ground arith

pub part-member :
    (p : Prefix) (names : List Str) (w : World) (k q : Str)
    → str_eq p.name w.conn.nick ≡ false
    → (each_channel (part_channel p) Command.part p names w).0 ≡ ok tt
    → member (each_channel (part_channel p) Command.part p names w).1.conn k q
      ≡ (if listed k names && str_eq p.name q then none else member w.conn k q)
part-member p names w k q other e =
    each_channel_view (λ uc name. member uc name q) (λ name x. if str_eq p.name q then none else x)
      (λ name x. ground arith) (HasNick w.conn.nick) (part_channel p)
      (Touches-step (delete p.name) w.conn.nick q (part_channel p)
        (λ x. if str_eq p.name q then none else x) (λ members. lookup-delete p.name q members)
        (part_channel-Touches p w.conn.nick other))
      Command.part p names w refl e k
    ∙ ground arith
