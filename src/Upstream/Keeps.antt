-- ===== src/Upstream/Keeps.antt =====
-- Invariants of handlers, one rule for each way to build a handler.
use soju.Prelude.{
  ◌≡◌, ◌≢◌, refl, sym, subst, Bool, true, false, Option, none, some, List, if◌then◌else◌,
}
use soju.Prelude.Text.{Str}
use soju.Prelude.Dict.{lookup}
use soju.Irc.Result.{Error, Result, ok, err, panic, Step}
use soju.Conn.{UpstreamChannel, UpstreamConn, DownstreamConn}
use soju.Upstream.{World, Handler, continue, finish, pure, lift, fail, conn, ◌>>=◌}
use soju.Upstream.Registration.{network}
use soju.Upstream.Broadcast.{visit}

-- Each channel is held under its own name, and an exchange that has started has a client.
pub record IsConsistent (uc : UpstreamConn) : Type 0 where
  pub named : (k : Str) (ch : UpstreamChannel) → lookup k uc.channels ≡ some ch → ch.name ≡ k
  pub started : uc.sasl_started ≡ true → uc.sasl_client ≢ none

-- What no handler but that of PRIVMSG changes.
pub record SameCore (a b : UpstreamConn) : Type 0 where
  pub network_ref : a.network_ref ≡ b.network_ref
  pub closed : a.closed ≡ b.closed
  pub ring : a.ring ≡ b.ring

-- An invariant that rests on the core and on consistency, and that the clients' messages respect. `Q`
-- stands for the wish that nothing panics, for which the connection has to be open.
pub record IsStable (P : World → Type 0) (Q : Type 0) : Type 0 where
  pub consistent : (w : World) → P w → IsConsistent w.conn
  pub change :
      (w : World) (uc : UpstreamConn)
      → P w
      → SameCore uc w.conn
      → IsConsistent uc
      → P (record w { conn = uc })
  pub visits :
      (w : World) (f : DownstreamConn → Result DownstreamConn) (dcs : List DownstreamConn)
      → P w
      → visit w.conn.network_ref f w.downstreams ≡ ok dcs
      → P (record w { downstreams = dcs })
  pub is_open : Q → (w : World) → P w → w.conn.closed ≡ false

-- A step's state has `P`, and it did not panic if `Q`.
abbrev pub Fine : {A : Type 0} → (World → Type 0) → Type 0 → Step World A → Type 0
Fine P Q (r, w) = P w × (Q → r ≢ panic)

-- `m` keeps `P`, whether it returns an error or not, and does not panic if `Q`.
pub record Keeps {A : Type 0} (P : World → Type 0) (Q : Type 0) (m : Handler A) : Type 0 where
  pub at : (w : World) → P w → Fine P Q (m w)

-- A run that is known is fine if its end is.
pub Fine-run :
    {A : Type 0} (P : World → Type 0) (Q : Type 0) {o o' : Step World A}
    → o ≡ o'
    → Fine P Q o'
    → Fine P Q o
Fine-run P Q e h = subst (Fine P Q) (sym e) h

module _ {P : World → Type 0} {Q : Type 0} where
  pub Keeps-pure : {A : Type 0} (a : A) → Keeps P Q (pure a)
  Keeps-pure a = record { at = λ w h. (h, λ q. λ e. cc) }

  pub Keeps-finish : Keeps P Q finish
  Keeps-finish = record { at = λ w h. (h, λ q. λ e. cc) }

  pub Keeps-fail : {A : Type 0} (e : Error) → Keeps {A = A} P Q (fail e)
  Keeps-fail e = record { at = λ w h. (h, λ q. λ e. cc) }

  pub Keeps-lift : {A : Type 0} (r : Result A) → (Q → r ≢ panic) → Keeps P Q (lift r)
  Keeps-lift r safe = record { at = λ w h. (h, safe) }

  pub Keeps-conn : Keeps P Q conn
  Keeps-conn = record { at = λ w h. (h, λ q. λ e. cc) }

  pub Keeps-network : Keeps P Q network
  Keeps-network = record { at = λ w h. (h, λ q. λ e. cc) }

  pub Keeps-if :
      {A : Type 0} (b : Bool) (m n : Handler A)
      → Keeps P Q m
      → Keeps P Q n
      → Keeps P Q (if b then m else n)
  Keeps-if true m n km kn = km
  Keeps-if false m n km kn = kn

  pub Keeps-continue :
      {A B : Type 0} (r : Result A) (f : A → Handler B) (w : World)
      → P w
      → (Q → r ≢ panic)
      → ((a : A) → Keeps P Q (f a))
      → Fine P Q (continue r f w)
  Keeps-continue (ok a) f w h safe kf = (kf a).at w h
  Keeps-continue (err e) f w h safe kf = (h, λ q. λ e'. cc)
  Keeps-continue panic f w h safe kf = (h, λ q. λ e'. safe q refl)

  pub Keeps-bind :
      {A B : Type 0} (m : Handler A) (f : A → Handler B)
      → Keeps P Q m
      → ((a : A) → Keeps P Q (f a))
      → Keeps P Q (m >>= f)
  unfolding ◌>>=◌
  Keeps-bind m f km kf = record {
    at = λ w h. let (r, w') = m w in Keeps-continue r f w' (km.at w h).0 (km.at w h).1 kf;
  }

  -- The rest of a block may use that `r` was returned.
  pub Keeps-bind-lift :
      {A B : Type 0} (r : Result A) (f : A → Handler B)
      → (Q → r ≢ panic)
      → ((a : A) → r ≡ ok a → Keeps P Q (f a))
      → Keeps P Q (lift r >>= f)
  unfolding ◌>>=◌
  Keeps-bind-lift (ok a) f safe kf = kf a refl
  Keeps-bind-lift (err e) f safe kf = Keeps-fail e
  Keeps-bind-lift panic f safe kf = record { at = λ w h. (h, λ q. λ e. safe q refl) }

  pub Keeps-option :
      {A B : Type 0} (o : Option A) (m : Handler B) (f : A → Handler B)
      → Keeps P Q m
      → ((a : A) → Keeps P Q (f a))
      → Keeps P Q (elim o [ none ↦ m | some a ↦ f a ])
  Keeps-option none m f km kf = km
  Keeps-option (some a) m f km kf = kf a

  pub ruleset keeps_rules = (
    Keeps-pure, Keeps-finish, Keeps-fail, Keeps-lift, Keeps-conn, Keeps-network, Keeps-if,
    Keeps-bind, Keeps-option,
  )
