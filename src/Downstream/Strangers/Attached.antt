-- ===== src/Downstream/Strangers/Attached.antt =====
-- The loop of `register` over the connections moves none of them, and changes of the client only what it is sent and
-- who reads for it.
use mathlib.Core.Option
use soju.Prelude.{
  ℕ, zero, suc, ◌++◌, subst, ◌≡◌, refl, sym, ap, ◌∙◌, Bool, true, false, not, Option, none, some,
  List, [], ◌∷◌, if◌then◌else◌, arith, Option-cases, Bool-cases, inl, inr,
}
use soju.Prelude
use soju.Prelude.Text.{Str}
use soju.Prelude.Dict.{Dict}
use soju.Irc.Result
use soju.Irc.Result.{Result, ok, err, panic, bind-eq-ok}
use soju.Irc.{Message}
use soju.Ring.{Memory, new_consumer}
use soju.Conn.{UpstreamChannel, UpstreamConn, DownstreamConn}
use soju.Upstream.Bridge.{forward_channel}
use soju.User.{Net}
use soju.Downstream.Session.{conn_at}
use soju.Downstream.Routing.{is_visited}
use soju.Downstream.Register.{forward_all, add_reader, attach, attach_net, attach_all, resume_from}
use soju.Downstream.Frame.{SameIdentity, IsPlaced}

pub SameIdentity-trans :
    (a b c : DownstreamConn) → SameIdentity a b → SameIdentity b c → SameIdentity a c
SameIdentity-trans a b c h k = record {
  user = h.user ∙ k.user;
  password = h.password ∙ k.password;
  network = h.network ∙ k.network;
  registered = h.registered ∙ k.registered;
  sasl_server = h.sasl_server ∙ k.sasl_server;
}

same : (dc : DownstreamConn) → SameIdentity dc dc
same dc = record {
  user = refl;
  password = refl;
  network = refl;
  registered = refl;
  sasl_server = refl;
}

forward_channel-SameIdentity :
    (hostname : Str) (dc dc' : DownstreamConn) (uc : UpstreamConn) (ch : UpstreamChannel)
    → forward_channel hostname dc uc ch ≡ ok dc'
    → SameIdentity dc' dc
unfolding forward_channel
forward_channel-SameIdentity hostname dc dc' uc ch e = elim (Bool-cases ch.complete) [
  | inl whole ↦ record {
    user = ground (arith, e);
    password = ground (arith, e);
    network = ground (arith, e);
    registered = ground (arith, e);
    sasl_server = ground (arith, e);
  }
  | inr partial ↦ ground (arith, e)
]

ok_eq : {A : Type 0} {a b : A} → Result.ok a ≡ ok b → a ≡ b
ok_eq e = cc

forward_all-SameIdentity :
    (hostname : Str) (uc : UpstreamConn) (chs : Dict UpstreamChannel) (dc dc' : DownstreamConn)
    → forward_all hostname uc chs dc ≡ ok dc'
    → SameIdentity dc' dc
unfolding forward_all
forward_all-SameIdentity hostname uc [] dc dc' e =
    subst (λ (x : DownstreamConn). SameIdentity x dc) (ok_eq e) (same dc)
forward_all-SameIdentity hostname uc ((k, ch) ∷ chs) dc dc' e =
    shown ch.complete e (λ mid more. forward_all-SameIdentity hostname uc chs mid dc' more)
  where
    shown :
        (b : Bool)
        → (if b
            then (Result.◌>>=◌
                (forward_channel hostname dc uc ch)
                (λ mid. forward_all hostname uc chs mid))
            else forward_all hostname uc chs dc)
          ≡ ok dc'
        → ((mid : DownstreamConn) → forward_all hostname uc chs mid ≡ ok dc' → SameIdentity dc' mid)
        → SameIdentity dc' dc
    shown true h rest =
        let (mid, first, more) =
          bind-eq-ok (forward_channel hostname dc uc ch) (λ mid. forward_all hostname uc chs mid)
            h in
        SameIdentity-trans dc' mid dc (rest mid more)
          (forward_channel-SameIdentity hostname dc mid uc ch first)
    shown false h rest = rest dc h

-- A new consumer leaves the connection where it is.
add_reader_lem :
    (first : Bool) (uc : UpstreamConn) (dc : DownstreamConn) (uc' : UpstreamConn)
    (dc' : DownstreamConn)
    → add_reader first uc dc ≡ ok (uc', dc')
    → (uc'.network_ref ≡ uc.network_ref) × SameIdentity dc' dc
unfolding add_reader
add_reader_lem first uc dc uc' dc' e =
    made (new_consumer (resume_from first dc.username uc) uc.ring) e
  where
    made :
        (o : Prelude.Outcome (ℕ × Memory Message))
        → (elim o as (λ _. Result (UpstreamConn × DownstreamConn)) [
          | Prelude.panic ↦ panic
          | Prelude.ok (rc, ring) ↦ ok (
            record uc { ring = ring },
            record dc {
              readers =
                  dc.readers
                  ++ record { serial = uc.serial; network_ref = uc.network_ref; consumer = rc }
                    ∷ [];
            },
          )
        ])
          ≡ ok (uc', dc')
        → (uc'.network_ref ≡ uc.network_ref) × SameIdentity dc' dc
    made (Prelude.ok (rc, ring)) h =
        let both = ok_eq h in
        (
          ap (λ (x : UpstreamConn × DownstreamConn). x.0.network_ref) (sym both),
          record {
            user = ap (λ (x : UpstreamConn × DownstreamConn). x.1.user) (sym both);
            password = ap (λ (x : UpstreamConn × DownstreamConn). x.1.password) (sym both);
            network = ap (λ (x : UpstreamConn × DownstreamConn). x.1.network) (sym both);
            registered = ap (λ (x : UpstreamConn × DownstreamConn). x.1.registered) (sym both);
            sasl_server = ap (λ (x : UpstreamConn × DownstreamConn). x.1.sasl_server) (sym both);
          },
        )
    made Prelude.panic h = cc

attach_lem :
    (hostname : Str) (first : Bool) (uc : UpstreamConn) (dc : DownstreamConn)
    (out : UpstreamConn × DownstreamConn)
    → attach hostname first uc dc ≡ ok out
    → (out.0.network_ref ≡ uc.network_ref) × SameIdentity out.1 dc
attach_lem hostname first uc dc (uc', dc') e =
    let (mid, shown, read) =
      bind-eq-ok (forward_all hostname uc uc.channels dc) (λ mid. add_reader first uc mid) e in
    let (points, same') = add_reader_lem first uc mid uc' dc' read in
    (
      points,
      SameIdentity-trans dc' mid dc same'
          (forward_all-SameIdentity hostname uc uc.channels dc mid shown),
    )

-- Of a network's connection, where it points to.
abbrev points_to : Option UpstreamConn → Option ℕ
points_to none = none
points_to (some uc) = some uc.network_ref

abbrev Follows : Net → DownstreamConn → Net × DownstreamConn → Type 0
Follows net dc out = (points_to out.0.conn ≡ points_to net.conn) × SameIdentity out.1 dc

attach_net_lem :
    (hostname : Str) (first : Bool) (net : Net) (dc : DownstreamConn) (out : Net × DownstreamConn)
    → attach_net hostname first net dc ≡ ok out
    → Follows net dc out
unfolding attach_net
attach_net_lem hostname first net dc out e = with_conn net.conn refl e
  where
    unchanged : Result.ok (net, dc) ≡ ok out → Follows net dc out
    unchanged h = subst (Follows net dc) (ok_eq h) (refl, same dc)

    visited :
        (uc : UpstreamConn) (b : Bool)
        → net.conn ≡ some uc
        → (if b
            then (Result.◌>>=◌
                (attach hostname first uc dc)
                (λ o. ok (record net { conn = some o.0 }, o.1)))
            else ok (net, dc))
          ≡ ok out
        → Follows net dc out
    visited uc true found h =
        let (o, attached, done) =
          bind-eq-ok (attach hostname first uc dc) (λ o. ok (record net { conn = some o.0 }, o.1))
            h in
        let (points, same') = attach_lem hostname first uc dc o attached in
        subst (Follows net dc) (ok_eq done) (ap some points ∙ ap points_to (sym found), same')
    visited uc false found h = unchanged h

    with_conn :
        (o : Option UpstreamConn)
        → net.conn ≡ o
        → (elim o as (λ _. Result (Net × DownstreamConn)) [
          | none ↦ ok (net, dc)
          | some uc ↦
              if is_visited dc uc
              then (Result.◌>>=◌
                  (attach hostname first uc dc)
                  (λ o. ok (record net { conn = some o.0 }, o.1)))
              else ok (net, dc)
        ])
          ≡ ok out
        → Follows net dc out
    with_conn none found h = unchanged h
    with_conn (some uc) found h = visited uc (is_visited dc uc) found h

pub attach_all_lem :
    (hostname : Str) (first : Bool) (nets : List Net) (dc : DownstreamConn)
    (out : List Net × DownstreamConn)
    → attach_all hostname first nets dc ≡ ok out
    → ((j : ℕ) → points_to (conn_at j out.0) ≡ points_to (conn_at j nets)) × SameIdentity out.1 dc
unfolding attach_all
attach_all_lem hostname first [] dc out e =
    subst
      (λ (o : List Net × DownstreamConn).
        ((j : ℕ) → points_to (conn_at j o.0) ≡ none) × SameIdentity o.1 dc)
      (ok_eq e) (λ j. refl, same dc)
attach_all_lem hostname first (net ∷ nets) dc out e =
    let (o, attached, then_rest) =
      bind-eq-ok (attach_net hostname first net dc)
        (λ o. Result.◌>>=◌ (attach_all hostname first nets o.1) (λ more. ok (o.0 ∷ more.0, more.1)))
        e in
    let (more, rest, done) =
      bind-eq-ok (attach_all hostname first nets o.1) (λ more. ok (o.0 ∷ more.0, more.1))
        then_rest in
    let (points, same') = attach_net_lem hostname first net dc o attached in
    let (later, same'') = attach_all_lem hostname first nets o.1 more rest in
    subst
      (λ (x : List Net × DownstreamConn).
        ((j : ℕ) → points_to (conn_at j x.0) ≡ points_to (conn_at j (net ∷ nets)))
        × SameIdentity x.1 dc)
      (ok_eq done)
      (λ j. at_place j o.0 more.0 points later, SameIdentity-trans more.1 o.1 dc same'' same')
  where
    at_place :
        (j : ℕ) (net' : Net) (nets' : List Net)
        → points_to net'.conn ≡ points_to net.conn
        → ((i : ℕ) → points_to (conn_at i nets') ≡ points_to (conn_at i nets))
        → points_to (conn_at j (net' ∷ nets')) ≡ points_to (conn_at j (net ∷ nets))
    at_place zero net' nets' here later = here
    at_place (suc i) net' nets' here later = later i

-- Connections that point where those of `nets` do are in their places if those are.
pub IsPlaced-points_to :
    (nets nets' : List Net)
    → IsPlaced nets
    → ((j : ℕ) → points_to (conn_at j nets') ≡ points_to (conn_at j nets))
    → IsPlaced nets'
IsPlaced-points_to nets nets' placed points j uc found =
    here (conn_at j nets) refl (sym (points j) ∙ ap points_to found)
  where
    here :
        (o : Option UpstreamConn)
        → conn_at j nets ≡ o
        → points_to o ≡ some uc.network_ref
        → uc.network_ref ≡ j
    here none e h = absurd (Option.none-ne-some uc.network_ref h)
    here (some before) e h =
        sym (Option.some-injective before.network_ref uc.network_ref h) ∙ placed j before e
