-- ===== src/Downstream/Isolation.antt =====
-- What a registered client that is bound to a network can reach: that network, and itself.
use mathlib.Core.Option
use soju.Prelude.{
  if_false, ℕ, ◌≡◌, ◌≢◌, refl, sym, ap, ◌∙◌, subst, true, false, Option, none, some, List, ◌==◌,
  get_elem?, Bool-cases, ==_iff, inl, inr, if◌then◌else◌,
}
use soju.Prelude.Text.{Str, str_eq, str_eq_refl}
use soju.Prelude.Dict.{Dict, lookup, lookup-insert}
use soju.Conn.{points_at}
use soju.Irc.{Message}
use soju.User.{User}
use soju.Downstream.Session.{Outside, Session, account, user_of}
use soju.Downstream.Handle.{serve_all}
use soju.Downstream.Frame.Networks.{get_elem?-change_at, configured-IsPlaced}
use soju.Downstream.Frame.{configured, IsPlaced, IsFrame}
use soju.Downstream.Frame.Loop.{serve_all-frame}

pub user_of-eq :
    (s : Session) (name : Str) (u : User)
    → s.client.user ≡ some name
    → lookup name s.users ≡ some u
    → user_of s ≡ some (name, u)
user_of-eq s name u logged found =
    ap (account s.users) logged ∙ ap (Option.map (λ (v : User). (name, v))) found

pub user_of-some :
    (s : Session) (name : Str) (u : User)
    → user_of s ≡ some (name, u)
    → (s.client.user ≡ some name) × (lookup name s.users ≡ some u)
user_of-some s name u e = with_name s.client.user refl e
  where
    with_user :
        (other : Str) (o : Option User)
        → s.client.user ≡ some other
        → lookup other s.users ≡ o
        → Option.map {B = Str × User} (λ (v : User). (other, v)) o ≡ some (name, u)
        → (s.client.user ≡ some name) × (lookup name s.users ≡ some u)
    with_user other none logged found h = absurd (Option.none-ne-some (name, u) h)
    with_user other (some v) logged found h =
        let both : (other, v) ≡ (name, u) = Option.some-injective (other, v) (name, u) h in
        let other_is : other ≡ name = ap (λ (x : Str × User). x.0) both in
        (
          logged ∙ ap some other_is,
          ap (λ (k : Str). lookup k s.users) (sym other_is)
              ∙ found
              ∙ ap (λ (x : Str × User). some x.1) both,
        )

    with_name :
        (o : Option Str)
        → s.client.user ≡ o
        → account s.users o ≡ some (name, u)
        → (s.client.user ≡ some name) × (lookup name s.users ≡ some u)
    with_name none logged h = absurd (Option.none-ne-some (name, u) h)
    with_name (some other) logged h = with_user other (lookup other s.users) logged refl h

-- The session of a client of `name` that is bound to the network at `n`, after which the other networks of the user are
-- those of `u`, and the other users those of `before`.
pub record IsConfined (before : Dict User) (name : Str) (u : User) (n : ℕ) (s : Session)
    : Type 0 where
  pub registered : s.client.registered ≡ true
  pub logged : s.client.user ≡ some name
  pub bound : s.client.network ≡ some (name, n)
  pub now : User
  pub held : lookup name s.users ≡ some now
  pub placed : IsPlaced now.networks
  pub password : now.password ≡ u.password
  pub networks : (j : ℕ) → n ≢ j → get_elem? now.networks j ≡ get_elem? u.networks j
  pub others :
      (other : Str) → str_eq name other ≡ false → lookup other s.users ≡ lookup other before

-- The user that the session holds is the one that it has.
held_eq :
    {before : Dict User} {name : Str} {u : User} {n : ℕ} (s : Session) (other : Str) (v : User)
    → (h : IsConfined before name u n s) → user_of s ≡ some (other, v)
    → (name ≡ other) × (h.now ≡ v)
held_eq {name = name} s other v h e =
    let here : user_of s ≡ some (name, h.now) = user_of-eq s name (h.now) (h.logged) (h.held) in
    let both : (name, h.now) ≡ (other, v) =
      Option.some-injective (name, h.now) (other, v) (sym here ∙ e) in
    (ap (λ (x : Str × User). x.0) both, ap (λ (x : Str × User). x.1) both)

IsConfined-IsFrame :
    (before : Dict User) (name : Str) (u : User) (n : ℕ) → IsFrame (IsConfined before name u n)
IsConfined-IsFrame before name u n = record {
  client = λ s dc h same. record {
    registered = same.registered ∙ h.registered;
    logged = same.user ∙ h.logged;
    bound = same.network ∙ h.bound;
    now = h.now;
    held = h.held;
    placed = h.placed;
    password = h.password;
    networks = h.networks;
    others = h.others;
  };
  journal = λ s journal h. record {
    registered = h.registered;
    logged = h.logged;
    bound = h.bound;
    now = h.now;
    held = h.held;
    placed = h.placed;
    password = h.password;
    networks = h.networks;
    others = h.others;
  };
  placed =
      λ s other v h e. subst (λ (x : User). IsPlaced x.networks) (held_eq s other v h e).1 h.placed;
  put = λ s other v v' h e touches.
      let (here, now) = held_eq s other v h e in
      let same_networks : (j : ℕ) → n ≢ j → get_elem? v'.networks j ≡ get_elem? u.networks j =
        λ j away.
          touches.others j (away_own s h.logged h.bound away)
          ∙ sym (ap (λ (x : User). get_elem? x.networks j) now)
          ∙ h.networks j away in
      record {
        registered = h.registered;
        logged = h.logged;
        bound = h.bound;
        now = v';
        held = lookup-insert other name v' s.users ∙ in_place (lookup name s.users) here;
        placed = touches.placed;
        password = touches.password ∙ sym (ap (λ (x : User). x.password) now) ∙ h.password;
        networks = same_networks;
        others = λ k apart.
            lookup-insert other k v' s.users
            ∙ elsewhere k v' (lookup k s.users) here apart
            ∙ h.others k apart;
      };
  bound = λ s owner i v config h e found.
      let pointer : (owner, i) ≡ (name, n) =
        Option.some-injective (owner, i) (name, n) (sym e ∙ h.bound) in
      let here : name ≡ owner = sym (ap (λ (x : Str × ℕ). x.0) pointer) in
      let place : i ≡ n = ap (λ (x : Str × ℕ). x.1) pointer in
      let now : h.now ≡ v =
        (held_eq s owner v h (user_of-eq s owner v (h.logged ∙ ap some here) found)).1 in
      record {
        registered = h.registered;
        logged = h.logged;
        bound = h.bound;
        now = configured i config v;
        held = lookup-insert owner name _ s.users ∙ in_place (lookup name s.users) here;
        placed =
            configured-IsPlaced i config v (subst (λ (x : User). IsPlaced x.networks) now h.placed);
        password = sym (ap (λ (x : User). x.password) now) ∙ h.password;
        networks = λ j away.
            get_elem?-change_at i j _ v.networks
            ∙ if_false _ _ (apart_place (λ same. away (sym place ∙ same)))
            ∙ sym (ap (λ (x : User). get_elem? x.networks j) now)
            ∙ h.networks j away;
        others = λ k apart.
            lookup-insert owner k _ s.users
            ∙ elsewhere k _ (lookup k s.users) here apart
            ∙ h.others k apart;
      };
}
  where
    apart_place : {i j : ℕ} → i ≢ j → (i == j) ≡ false
    apart_place {i} {j} away = elim (Bool-cases (i == j)) [
      | inl same ↦ absurd (away ((==_iff i j).0 same))
      | inr apart ↦ apart
    ]

    away_own :
        {j : ℕ} (s : Session)
        → s.client.user ≡ some name
        → s.client.network ≡ some (name, n)
        → n ≢ j
        → points_at s.client j ≡ false
    away_own {j} s logged bound away = elim (Bool-cases (n == j)) [
      | inl same ↦ absurd (away ((==_iff n j).0 same))
      | inr apart ↦ rw bound (rw logged (rw (str_eq_refl name) apart))
    ]

    in_place :
        {other : Str} {v' : User} (o : Option User)
        → name ≡ other
        → (if str_eq other name then some v' else o) ≡ some v'
    in_place {other} o here = rw here (rw (str_eq_refl other) refl)

    elsewhere :
        {other : Str} (k : Str) (v' : User) (o : Option User)
        → name ≡ other
        → str_eq name k ≡ false
        → (if str_eq other k then some v' else o) ≡ o
    elsewhere {other} k v' o here apart = rw⁻¹ here (rw apart refl)

-- A registered client that is bound to a network of its own user changes nothing of the other networks of its user, nor of any other user, whatever
-- messages it sends: it stays registered and bound as it is, the user's password and the places of its connections stay right.
pub serve_all-IsConfined :
    (out : Outside) (msgs : List Message) (s : Session) (name : Str) (u : User) (n : ℕ)
    → s.client.registered ≡ true
    → s.client.user ≡ some name
    → s.client.network ≡ some (name, n)
    → lookup name s.users ≡ some u
    → IsPlaced u.networks
    → IsConfined s.users name u n (serve_all out msgs s)
serve_all-IsConfined out msgs s name u n registered logged bound held placed =
    serve_all-frame (IsConfined-IsFrame s.users name u n) (λ t h. h.registered) out msgs s
      (record {
        registered = registered;
        logged = logged;
        bound = bound;
        now = u;
        held = held;
        placed = placed;
        password = refl;
        networks = λ j away. refl;
        others = λ other apart. refl;
      })
