-- ===== src/Downstream/Frame/Networks.antt =====
-- What the registered client's handlers do to the networks of its user.
use mathlib.Core.Option
use mathlib.Core.Bool.{true≢false}
use soju.Prelude.{
  ℕ, zero, suc, ◌⊎◌, ◌≡◌, refl, sym, ap, ◌∙◌, true, false, Option, none, some, List, [], ◌∷◌, ◌==◌,
  if◌then◌else◌, map, arith, get_elem?, get_elem?-set, ==_iff, Bool-cases, Option-cases, inl, inr,
}
use soju.Prelude.Text.{Str}
use soju.Irc.{Message}
use soju.Conn.{points_at, Network, UpstreamConn, DownstreamConn}
use soju.Db.Store.{Sql, Journal, store_network}
use soju.User.{Net, User, change_at}
use soju.Downstream.Routing.{is_visited}
use soju.Downstream.Session.{conn_of, conn_at, sent, told}
use soju.Downstream.Registered.{store_nicks}
use soju.Downstream.Frame.{configured, IsPlaced, Touches}

pub get_elem?-map :
    {A B : Type 0} (f : A → B) (xs : List A) (j : ℕ)
    → get_elem? (map f xs) j ≡ Option.map f (get_elem? xs j)
get_elem?-map f [] j = refl
get_elem?-map f (x ∷ xs) zero = refl
get_elem?-map f (x ∷ xs) (suc j) = get_elem?-map f xs j

pub get_elem?-change_at :
    (i j : ℕ) (f : Net → Net) (nets : List Net)
    → get_elem? (change_at i f nets) j
      ≡ (if i == j then Option.map f (get_elem? nets j) else get_elem? nets j)
get_elem?-change_at i j f nets = elim (Option-cases (get_elem? nets i)) [
  | inl missing ↦ ground (arith, ==_iff i j, ap (get_elem? nets))
  | inr (net, found) ↦
      ground (arith, ==_iff i j, get_elem?-set nets i j (f net), ap (get_elem? nets))
]

pub conn_at-change_at :
    (i j : ℕ) (f : Net → Net) (nets : List Net) (uc : UpstreamConn)
    → conn_at j (change_at i f nets) ≡ some uc
    → (conn_at j nets ≡ some uc)
      ⊎ ((net : Net) × (i ≡ j) × (get_elem? nets i ≡ some net) × ((f net).conn ≡ some uc))
conn_at-change_at i j f nets uc e = elim (Bool-cases (i == j)) [
  | inl same ↦ elim (Option-cases (get_elem? nets j)) [
    | inl missing ↦ absurd (ground (arith, read, ap conn_of missing))
    | inr (net, found) ↦ inr (
      net,
      (==_iff i j).0 same,
      ap (get_elem? nets) ((==_iff i j).0 same) ∙ found,
      sym (ap (λ (o : Option Net). conn_of (Option.map f o)) found) ∙ sym (at_same same) ∙ e,
    )
  ]
  | inr other ↦ inl (sym (at_other other) ∙ e)
]
  where
    read :
        conn_at j (change_at i f nets)
        ≡ conn_of (if i == j then Option.map f (get_elem? nets j) else get_elem? nets j)
    read = ap conn_of (get_elem?-change_at i j f nets)

    at_same :
        (i == j) ≡ true → conn_at j (change_at i f nets) ≡ conn_of (Option.map f (get_elem? nets j))
    at_same same = read ∙ rw same refl

    at_other : (i == j) ≡ false → conn_at j (change_at i f nets) ≡ conn_at j nets
    at_other other = read ∙ rw other refl

-- A change at a place that the client may change, of which the connection still points to that place.
pub change_at-Touches :
    (dc : DownstreamConn) (u : User) (i : ℕ) (f : Net → Net)
    → IsPlaced u.networks
    → points_at dc i ≡ true
    → ((net : Net) (uc : UpstreamConn)
        → get_elem? u.networks i ≡ some net
        → (f net).conn ≡ some uc
        → uc.network_ref ≡ i)
    → Touches dc u (record u { networks = change_at i f u.networks })
change_at-Touches dc u i f placed own points = record {
  placed = λ j uc e. elim (conn_at-change_at i j f u.networks uc e) [
    | inl before ↦ placed j uc before
    | inr (net, here, found, now) ↦ points net uc found now ∙ here
  ];
  others =
      λ j e. ground (arith, ==_iff i j, get_elem?-change_at i j f u.networks, ap (points_at dc));
  password = refl;
}

-- `is_visited` looks at the place that the connection points to.
pub visited-own :
    (dc : DownstreamConn) (uc : UpstreamConn)
    → is_visited dc uc ≡ true
    → points_at dc uc.network_ref ≡ true
visited-own dc uc e = elim (Option-cases dc.network) [
  | inl unbound ↦ rw unbound refl
  | inr ((owner, n), bound) ↦ ground (arith, bound)
]

told-away :
    (dc : DownstreamConn) (f : UpstreamConn → Message) (net : Net) (j : ℕ)
    → ((uc : UpstreamConn) → net.conn ≡ some uc → uc.network_ref ≡ j)
    → points_at dc j ≡ false
    → told dc f net ≡ net
told-away dc f net j points away = elim (Option-cases net.conn) [
  | inl missing ↦ rw missing refl
  | inr (uc, found) ↦ elim (Bool-cases (is_visited dc uc)) [
    | inl visited ↦
        absurd (
          true≢false (sym (visited-own dc uc visited) ∙ ap (points_at dc) (points uc found) ∙ away))
    | inr skipped ↦ rw found (rw skipped refl)
  ]
]

told-points :
    (dc : DownstreamConn) (f : UpstreamConn → Message) (net : Net) (uc : UpstreamConn)
    → (told dc f net).conn ≡ some uc
    → (before : UpstreamConn) × (net.conn ≡ some before) × (before.network_ref ≡ uc.network_ref)
told-points dc f net uc e = elim (Option-cases net.conn) [
  | inl missing ↦ absurd (Option.none-ne-some uc (sym (silent missing) ∙ e))
  | inr (before, found) ↦ elim (Bool-cases (is_visited dc before)) [
    | inl visited ↦ (before, found, ap network_of (sym (now found visited) ∙ e))
    | inr skipped ↦ (before, found, ap network_of (sym (still found skipped) ∙ e))
  ]
]
  where
    network_of : Option UpstreamConn → ℕ
    network_of none = 0
    network_of (some x) = x.network_ref

    silent : net.conn ≡ none → (told dc f net).conn ≡ none
    silent missing = rw missing refl

    now :
        {before : UpstreamConn}
        → net.conn ≡ some before
        → is_visited dc before ≡ true
        → (told dc f net).conn ≡ some (sent (f before) before)
    now found visited = rw found (rw visited refl)

    still :
        {before : UpstreamConn}
        → net.conn ≡ some before
        → is_visited dc before ≡ false
        → (told dc f net).conn ≡ some before
    still found skipped = rw found (rw skipped refl)

-- `forEachUpstream` with a message.
pub told-Touches :
    (dc : DownstreamConn) (u : User) (f : UpstreamConn → Message)
    → IsPlaced u.networks
    → Touches dc u (record u { networks = map (told dc f) u.networks })
told-Touches dc u f placed = record {
  placed = λ j uc e.
      with_net j uc (get_elem? u.networks j) refl
        (ap conn_of (sym (get_elem?-map (told dc f) u.networks j)) ∙ e);
  others = λ j away.
      get_elem?-map (told dc f) u.networks j ∙ unchanged j away (get_elem? u.networks j) refl;
  password = refl;
}
  where
    with_net :
        (j : ℕ) (uc : UpstreamConn) (o : Option Net)
        → get_elem? u.networks j ≡ o
        → conn_of (Option.map (told dc f) o) ≡ some uc
        → uc.network_ref ≡ j
    with_net j uc none found e = absurd (Option.none-ne-some uc e)
    with_net j uc (some net) found e =
        let (before, was, points) = told-points dc f net uc e in
        sym points ∙ placed j before (ap conn_of found ∙ was)

    unchanged :
        (j : ℕ)
        → points_at dc j ≡ false
        → (o : Option Net) → get_elem? u.networks j ≡ o
        → Option.map (told dc f) o ≡ o
    unchanged j away none found = refl
    unchanged j away (some net) found =
        ap some (told-away dc f net j (λ uc e. placed j uc (ap conn_of found ∙ e)) away)

-- The loop of NICK leaves the connections alone.
pub store_nicks-conns :
    (sql : Sql) (username nick : Str) (j : ℕ) (nets : List Net) (journal : Journal)
    → conn_at j (store_nicks sql username nick nets journal).1 ≡ conn_at j nets
unfolding store_nicks
store_nicks-conns sql username nick j [] journal = refl
store_nicks-conns sql username nick zero (net ∷ nets) journal = ground arith
store_nicks-conns sql username nick (suc j) (net ∷ nets) journal =
    let after = (store_network sql username (record net.config { nick = nick }) journal).2 in
    ground (arith, store_nicks-conns sql username nick j nets after)

-- Another record of a network leaves its connection alone.
pub configured-IsPlaced :
    (i : ℕ) (config : Network) (u : User)
    → IsPlaced u.networks
    → IsPlaced (configured i config u).networks
configured-IsPlaced i config u placed j uc e =
    elim (conn_at-change_at i j (λ net. record net { config = config }) u.networks uc e) [
      | inl before ↦ placed j uc before
      | inr (net, here, found, now) ↦ placed i uc (ap conn_of found ∙ now) ∙ here
    ]
