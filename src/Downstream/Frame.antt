-- ===== src/Downstream/Frame.antt =====
-- What a message of a registered client may change, and the rules by which its handlers are seen to change
-- nothing else.
pub mod Networks
pub mod Resolve
pub mod Registered
pub mod Place
pub mod Served
pub mod Loop
use soju.Prelude.{
  ℕ, ◌≡◌, refl, sym, ap, ◌∙◌, Bool, true, false, Option, none, some, List, if◌then◌else◌, get_elem?,
  Option-cases, inl, inr,
}
use soju.Prelude.Text.{Str}
use soju.Prelude.Dict.{lookup, insert}
use soju.Irc.Result.{Error, Result, ok, err, panic}
use soju.Irc.Action.{pure, finish, lift, fail, continue, get, update, ◌>>=◌, ◌>>◌}
use soju.Conn.{points_at, Network, UpstreamConn, DownstreamConn}
use soju.Db.Store.{Journal}
use soju.User.{Net, User, change_at}
use soju.Downstream.Session.{Session, Handler, user_of, the_user, conn_at, not_nil}

pub record SameIdentity (a b : DownstreamConn) : Type 0 where
  pub user : a.user ≡ b.user
  pub password : a.password ≡ b.password
  pub network : a.network ≡ b.network
  pub registered : a.registered ≡ b.registered
  pub sasl_server : a.sasl_server ≡ b.sasl_server

-- The connection of a network points back to it.
abbrev pub IsPlaced : List Net → Type 0
IsPlaced nets = (j : ℕ) (uc : UpstreamConn) → conn_at j nets ≡ some uc → uc.network_ref ≡ j

-- `u'` is `u` but for the networks that `forEachNetwork` of the client visits.
pub record Touches (dc : DownstreamConn) (u u' : User) : Type 0 where
  pub placed : IsPlaced u'.networks
  pub others : (j : ℕ) → points_at dc j ≡ false → get_elem? u'.networks j ≡ get_elem? u.networks j
  pub password : u'.password ≡ u.password

-- The user with another record for the network at a place.
abbrev pub configured : ℕ → Network → User → User
configured i config u = record u {
  networks = change_at i (λ net. record net { config = config }) u.networks;
}

-- A property that such changes keep, and a change of the record of the network that the client is bound to.
pub record IsFrame (P : Session → Type 0) : Type 0 where
  pub client :
      (s : Session) (dc : DownstreamConn)
      → P s
      → SameIdentity dc s.client
      → P (record s { client = dc })
  pub journal : (s : Session) (journal : Journal) → P s → P (record s { journal = journal })
  pub placed :
      (s : Session) (name : Str) (u : User) → P s → user_of s ≡ some (name, u) → IsPlaced u.networks
  pub put :
      (s : Session) (name : Str) (u u' : User)
      → P s
      → user_of s ≡ some (name, u)
      → Touches s.client u u'
      → P (record s { users = insert name u' s.users })
  pub bound :
      (s : Session) (owner : Str) (i : ℕ) (u : User) (config : Network)
      → P s
      → s.client.network ≡ some (owner, i)
      → lookup owner s.users ≡ some u
      → P (record s { users = insert owner (configured i config u) s.users })

pub record Keeps {A : Type 0} (P : Session → Type 0) (m : Handler A) : Type 0 where
  pub at : (s : Session) → P s → P (m s).1

pub Keeps-continue :
    (P : Session → Type 0) {A B : Type 0} (r : Result A) (f : A → Handler B) (s : Session)
    → P s
    → ((a : A) → r ≡ ok a → P (f a s).1)
    → P (continue r f s).1
Keeps-continue P (ok a) f s h kf = kf a refl
Keeps-continue P (err e) f s h kf = h
Keeps-continue P panic f s h kf = h

pub if_at :
    (P : Session → Type 0) {A : Type 0} (b : Bool) (m n : Handler A) (s : Session)
    → P (m s).1
    → P (n s).1
    → P ((if b then m else n) s).1
if_at P true m n s hm hn = hm
if_at P false m n s hm hn = hn

-- The branch that runs may use the test.
pub if_eq_at :
    (P : Session → Type 0) {A : Type 0} (b : Bool) (m n : Handler A) (s : Session)
    → (b ≡ true → P (m s).1)
    → (b ≡ false → P (n s).1)
    → P ((if b then m else n) s).1
if_eq_at P true m n s hm hn = hm refl
if_eq_at P false m n s hm hn = hn refl

pub lift_at :
    (P : Session → Type 0) {A B : Type 0} (r : Result A) (f : A → Handler B) (s : Session)
    → P s
    → ((a : A) → r ≡ ok a → P (f a s).1)
    → P ((lift r >>= f) s).1
unfolding ◌>>=◌
lift_at P r f s h kf = Keeps-continue P r f s h kf

pub update_at :
    (P : Session → Type 0) {B : Type 0} (f : Session → Session) (m : Handler B) (s : Session)
    → P (m (f s)).1
    → P ((update f >> m) s).1
unfolding ◌>>=◌
update_at P f m s h = h

pub option_at :
    (P : Session → Type 0) {A B : Type 0} (o : Option A) (m : Handler B) (f : A → Handler B)
    (s : Session)
    → P (m s).1
    → ((a : A) → o ≡ some a → P (f a s).1)
    → P ((elim o as (λ _. Handler B) [ none ↦ m | some a ↦ f a ]) s).1
option_at P none m f s hm hf = hm
option_at P (some a) m f s hm hf = hf a refl

-- The branch that runs may use what the option is.
pub option_eq_at :
    (P : Session → Type 0) {A B : Type 0} (o : Option A) (m : Handler B) (f : A → Handler B)
    (s : Session)
    → (o ≡ none → P (m s).1)
    → ((a : A) → o ≡ some a → P (f a s).1)
    → P ((elim o as (λ _. Handler B) [ none ↦ m | some a ↦ f a ]) s).1
option_eq_at P none m f s hm hf = hm refl
option_eq_at P (some a) m f s hm hf = hf a refl

-- The rest of a block has the user; without one it is not run.
pub the_user_at :
    (P : Session → Type 0) {B : Type 0} (f : Str × User → Handler B) (s : Session)
    → P s
    → ((name : Str) (u : User) → user_of s ≡ some (name, u) → P (f (name, u) s).1)
    → P ((the_user >>= f) s).1
unfolding ◌>>=◌
the_user_at P f s h kf = with_user (user_of s) refl
  where
    with_user : (o : Option (Str × User)) → user_of s ≡ o → P (continue (not_nil o) f s).1
    with_user none e = h
    with_user (some (name, u)) e = kf name u e

module _ {P : Session → Type 0} where
  pub Keeps-pure : {A : Type 0} (a : A) → Keeps P (pure a)
  Keeps-pure a = record { at = λ s h. h }

  pub Keeps-finish : Keeps P finish
  Keeps-finish = record { at = λ s h. h }

  pub Keeps-fail : {A : Type 0} (e : Error) → Keeps {A = A} P (fail e)
  Keeps-fail e = record { at = λ s h. h }

  pub Keeps-lift : {A : Type 0} (r : Result A) → Keeps P (lift r)
  Keeps-lift r = record { at = λ s h. h }

  pub Keeps-if :
      {A : Type 0} (b : Bool) (m n : Handler A)
      → Keeps P m
      → Keeps P n
      → Keeps P (if b then m else n)
  Keeps-if true m n km kn = km
  Keeps-if false m n km kn = kn

  pub Keeps-option :
      {A B : Type 0} (o : Option A) (m : Handler B) (f : A → Handler B)
      → Keeps P m
      → ((a : A) → Keeps P (f a))
      → Keeps P (elim o [ none ↦ m | some a ↦ f a ])
  Keeps-option none m f km kf = km
  Keeps-option (some a) m f km kf = kf a

  pub Keeps-bind :
      {A B : Type 0} (m : Handler A) (f : A → Handler B)
      → Keeps P m
      → ((a : A) → Keeps P (f a))
      → Keeps P (m >>= f)
  unfolding ◌>>=◌
  Keeps-bind m f km kf = record {
    at = λ s h.
        Keeps-continue P (m s).0 f (m s).1 (km.at s h) (λ a e. (kf a).at (m s).1 (km.at s h));
  }

  -- The rest of a block may use that `r` was returned.
  pub Keeps-bind-lift :
      {A B : Type 0} (r : Result A) (f : A → Handler B)
      → ((a : A) → r ≡ ok a → Keeps P (f a))
      → Keeps P (lift r >>= f)
  unfolding ◌>>=◌
  Keeps-bind-lift r f kf = record { at = λ s h. Keeps-continue P r f s h (λ a e. (kf a e).at s h) }

  -- The rest of a block runs where it read the state.
  pub Keeps-get :
      {B : Type 0} (f : Session → Handler B)
      → ((s : Session) → P s → P (f s s).1)
      → Keeps P (get >>= f)
  unfolding ◌>>=◌
  Keeps-get f kf = record { at = kf }

  pub Keeps-update : (f : Session → Session) → ((s : Session) → P s → P (f s)) → Keeps P (update f)
  Keeps-update f kf = record { at = kf }

  pub Keeps-the_user :
      {B : Type 0} (f : Str × User → Handler B)
      → ((s : Session) (name : Str) (u : User)
          → P s
          → user_of s ≡ some (name, u)
          → P (f (name, u) s).1)
      → Keeps P (the_user >>= f)
  Keeps-the_user f kf = record { at = λ s h. the_user_at P f s h (λ name u e. kf s name u h e) }

  pub ruleset frame_rules =
      (Keeps-pure, Keeps-finish, Keeps-fail, Keeps-lift, Keeps-if, Keeps-option, Keeps-bind)
