-- ===== src/Downstream/Strangers.antt =====
-- Passwords that do not fit: what a client without the password of a user does not do to it.
pub mod Attached
pub mod Entry
pub mod Registration
use mathlib.Core.Option
use mathlib.Core.Bool.{true≢false}
use soju.Prelude.{
  All, ℕ, ◌≡◌, ◌≢◌, refl, sym, ap, ◌∙◌, Bool, true, false, Option, none, some, List, [], ◌∷◌,
  if◌then◌else◌, arith, Bool-cases, inl, inr, subst,
}
use soju.Prelude.Text.{Str, str_eq, str_eq_iff}
use soju.Prelude.Dict.{Dict, lookup, insert, lookup-insert}
use soju.Conn.{DownstreamConn}
use soju.User.{User}
use soju.Downstream.Session.{SaslStep, check, Outside, Session, user_of}
use soju.Downstream.Frame.{IsPlaced, Touches, IsFrame, configured}
use soju.Downstream.Frame.Networks.{configured-IsPlaced}
use soju.Downstream.Isolation.{user_of-some}

-- No password fits `hash` that the SASL server reads in an exchange of which every response is in `responses`, nor does the empty
-- one. The nil response is there, which the server is given first.
pub record IsWrong (out : Outside) (responses : Option Str → Type 0) (hash : Str) : Type 0 where
  pub empty : out.check_password hash [] ≡ false
  pub no_text : responses none
  pub sasl :
      (given : List (Option Str)) (identity username password : Str)
      → All responses given
      → out.plain_next given ≡ check identity username password
      → out.check_password hash password ≡ false

-- The user `name` is as it was, and the client is not logged in as it, is bound to none of its networks, and keeps no password
-- that fits; its SASL server has been given responses of `responses`. The connections of every user point to their places.
pub record IsStranger (out : Outside) (responses : Option Str → Type 0) (name : Str) (u : User)
    (s : Session) : Type 0 where
  pub kept : lookup name s.users ≡ some u
  pub apart : s.client.user ≢ some name
  pub unbound : (i : ℕ) → s.client.network ≢ some (name, i)
  pub given :
      (before : List (Option Str)) → s.client.sasl_server ≡ some before → All responses before
  pub wrong : out.check_password u.password s.client.password ≡ false
  pub placed : (other : Str) (v : User) → lookup other s.users ≡ some v → IsPlaced v.networks

module _ (out : Outside) (responses : Option Str → Type 0) (name : Str) (u : User) where
  pub IsStranger-client :
      (s : Session) (dc : DownstreamConn)
      → IsStranger out responses name u s
      → dc.user ≢ some name
      → ((i : ℕ) → dc.network ≢ some (name, i))
      → ((before : List (Option Str)) → dc.sasl_server ≡ some before → All responses before)
      → out.check_password u.password dc.password ≡ false
      → IsStranger out responses name u (record s { client = dc })
  IsStranger-client s dc h apart unbound given wrong = record {
    kept = h.kept;
    apart = apart;
    unbound = unbound;
    given = given;
    wrong = wrong;
    placed = h.placed;
  }

  -- The user of a stranger is another one.
  pub other_user :
      (s : Session) (other : Str) (v : User)
      → IsStranger out responses name u s
      → user_of s ≡ some (other, v)
      → other ≢ name
  other_user s other v h e same = h.apart ((user_of-some s other v e).0 ∙ ap some same)

  pub IsStranger-put :
      (s : Session) (other : Str) (v' : User)
      → IsStranger out responses name u s
      → other ≢ name
      → IsPlaced v'.networks
      → IsStranger out responses name u (record s { users = insert other v' s.users })
  IsStranger-put s other v' h apart placed = record {
    kept = lookup-insert other name v' s.users ∙ elsewhere (str_eq other name) refl ∙ h.kept;
    apart = h.apart;
    unbound = h.unbound;
    given = h.given;
    wrong = h.wrong;
    placed =
        λ k w found. either k w (str_eq other k) (sym (lookup-insert other k v' s.users) ∙ found);
  }
    where
      elsewhere :
          (b : Bool)
          → str_eq other name ≡ b
          → (if b then some v' else lookup name s.users) ≡ lookup name s.users
      elsewhere true same = absurd (apart ((str_eq_iff other name).0 same))
      elsewhere false same = refl

      either :
          (k : Str) (w : User) (b : Bool)
          → (if b then some v' else lookup k s.users) ≡ some w
          → IsPlaced w.networks
      either k w true found =
          subst (λ (x : User). IsPlaced x.networks) (Option.some-injective v' w found) placed
      either k w false found = h.placed k w found

  pub IsStranger-IsFrame : IsFrame (IsStranger out responses name u)
  IsStranger-IsFrame = record {
    client = λ s dc h same.
        IsStranger-client s dc h (λ e. h.apart (sym same.user ∙ e))
          (λ i e. h.unbound i (sym same.network ∙ e))
          (λ before e. h.given before (sym same.sasl_server ∙ e))
          (ap (out.check_password u.password) same.password ∙ h.wrong);
    journal = λ s journal h. record {
      kept = h.kept;
      apart = h.apart;
      unbound = h.unbound;
      given = h.given;
      wrong = h.wrong;
      placed = h.placed;
    };
    placed = λ s other v h e. h.placed other v (user_of-some s other v e).1;
    put = λ s other v v' h e touches.
        IsStranger-put s other v' h (other_user s other v h e) touches.placed;
    bound = λ s owner i v config h e found.
        IsStranger-put s owner (configured i config v) h
          (λ same. h.unbound i (e ∙ ap (λ (k : Str). some (k, i)) same))
          (configured-IsPlaced i config v (h.placed owner v found));
  }
