-- ===== src/Downstream/Strangers/Entry.antt =====
-- The ways in: a network, a password, an exchange over SASL, and `register`.
use mathlib.Core.Option
use mathlib.Core.Bool.{true≢false}
use soju.Prelude.{
  All, subst, ℕ, zero, suc, ◌≡◌, ◌≢◌, refl, sym, ap, ◌∙◌, false, not, Option, none, some, List, [],
  ◌∷◌, ◌++◌, get_elem?,
}
use soju.Prelude.Text.{Str, codes, str_eq}
use soju.Prelude.Dict.{lookup, insert}
use soju.Irc.{Message, Command, Reply}
use soju.Irc.Result.{Error, Result, ok, err, panic, irc_error, sasl_failed}
use soju.Irc.Action.{◌>>=◌}
use soju.Conn.{Network, UpstreamConn}
use soju.Db.Store.{Journal, Sql, store_network}
use soju.User.{Net, User, new_network, appended, create_network, fresh_config, get_network}
use soju.Downstream.Names.{unmarshal_username}
use soju.Downstream.Caps.{is_enabled}
use soju.Downstream.Session.{SaslStep, challenge, check, failed, Outside, Session, user_of, conn_at}
use soju.Downstream.Unregistered.{
  bind_network, created, add_network, set_network, authenticate, sasl_over, sasl_broken,
  sasl_refused, sasl_error, sasl_done, sasl_checked, sasl_check, sasl_answer, sasl_next, sasl_first,
  sasl_response, handle_sasl,
}
use soju.Downstream.Frame.{
  IsPlaced, IsFrame, Keeps, Keeps-finish, Keeps-fail, Keeps-lift, Keeps-if, Keeps-option,
  Keeps-bind, Keeps-get, Keeps-update, Keeps-the_user, the_user_at, if_at, if_eq_at, lift_at,
  update_at, option_at,
}
use soju.Downstream.Frame.Registered.{Keeps-send}
use soju.Downstream.Strangers.{
  IsWrong, IsStranger, IsStranger-client, IsStranger-put, IsStranger-IsFrame, other_user,
}

-- A network without a connection may be added.
conn_at-append :
    (nets : List Net) (config : Network) (j : ℕ) (uc : UpstreamConn)
    → conn_at j (nets ++ new_network config ∷ []) ≡ some uc
    → conn_at j nets ≡ some uc
conn_at-append [] config zero uc e = e
conn_at-append [] config (suc j) uc e = e
conn_at-append (net ∷ nets) config zero uc e = e
conn_at-append (net ∷ nets) config (suc j) uc e = conn_at-append nets config j uc e

create_network-IsPlaced :
    (sql : Sql) (username addr nick : Str) (u : User) (journal : Journal)
    → IsPlaced u.networks
    → IsPlaced (create_network sql username addr nick u journal).1.networks
unfolding create_network
create_network-IsPlaced sql username addr nick u journal placed =
    stored (store_network sql username (fresh_config addr nick) journal)
  where
    stored : (o : Result (Unit {0}) × Network × Journal) → IsPlaced (appended u o).1.networks
    stored (ok a, config, j) = λ i uc e. placed i uc (conn_at-append u.networks config i uc e)
    stored (err e, config, j) = placed
    stored (panic, config, j) = placed

-- The response that an AUTHENTICATE with these parameters carries, if any, is in `responses`.
abbrev pub Tells : Outside → (Option Str → Type 0) → List Str → Type 0
Tells out responses [] = Unit {0}
Tells out responses (arg ∷ args) =
    (resp : Str) → out.base64_decode arg ≡ some resp → responses (some resp)

All-snoc :
    {A : Type 0} (P : A → Type 0) (xs : List A) (x : A) → All P xs → P x → All P (xs ++ x ∷ [])
All-snoc P [] x all h = (h, tt)
All-snoc P (y ∷ xs) x (here, later) h = (here, All-snoc P xs x later h)

module _ (out : Outside) (responses : Option Str → Type 0) (name : Str) (u : User) where
  abbrev pub P : Session → Type 0
  P = IsStranger out responses name u

  pub frame : IsFrame P
  frame = IsStranger-IsFrame out responses name u

  Keeps-bind_network : (owner : Str) (i : ℕ) → owner ≢ name → Keeps P (bind_network owner i)
  Keeps-bind_network owner i other = Keeps-update _ (λ s h.
      IsStranger-client out responses name u s _ h h.apart
        (λ j e. other (ap (λ (p : Str × ℕ). p.0) (Option.some-injective (owner, i) (name, j) e)))
        h.given h.wrong)

  created_at :
      (s : Session) (username : Str) (v : User) (r : Result ℕ) (v' : User) (journal : Journal)
      → P s
      → user_of s ≡ some (username, v)
      → IsPlaced v'.networks
      → P (created username (r, v', journal) s).1
  unfolding created ◌>>=◌
  created_at s username v r v' journal h e placed =
      lift_at P r (bind_network username)
        (record s { users = insert username v' s.users; journal = journal })
        (frame.journal (record s { users = insert username v' s.users }) journal
          (IsStranger-put out responses name u s username v' h
            (other_user out responses name u s username v h e) placed))
        (λ i _.
          (Keeps-bind_network username i (other_user out responses name u s username v h e)).at _ (
            frame.journal (record s { users = insert username v' s.users }) journal
              (IsStranger-put out responses name u s username v' h
                (other_user out responses name u s username v h e) placed)))

  Keeps-add_network : (network : Str) → Keeps P (add_network out network)
  unfolding add_network
  Keeps-add_network network = Keeps-if _ _ _ (Keeps-fail _) (
      Keeps-get _ (λ s h. the_user_at P _ s h (λ username v e.
        let done : Result ℕ × User × Journal =
          create_network out.sql username network s.client.nick v s.journal in
        created_at s username v done.0 done.1 done.2 h e (
          create_network-IsPlaced out.sql username network s.client.nick v s.journal
            (frame.placed s username v h e)))))

  pub Keeps-set_network : (network : Str) → Keeps P (set_network out network)
  unfolding set_network
  Keeps-set_network network = Keeps-if _ _ _ Keeps-finish (
      Keeps-the_user _ (λ s username v h e.
        (Keeps-option (get_network network v.networks) _ _ (Keeps-add_network network) (λ i.
            Keeps-bind_network username i (other_user out responses name u s username v h e))).at
          s h))

  -- A password that does not fit logs the client in as nobody, or as another user.
  pub Keeps-authenticate :
      (raw password : Str)
      → out.check_password u.password password ≡ false
      → Keeps P (authenticate out raw password)
  unfolding authenticate
  Keeps-authenticate raw password wrong = Keeps-get _ (λ s h.
      let username : Str = (unmarshal_username raw).0 in
      option_at P (lookup username s.users) _ _ s h (λ v found.
        if_eq_at P (not (out.check_password v.password password)) _ _ s (λ _. h)
          (λ fits.
            let other : username ≢ name = λ same.
              let v_is : u ≡ v =
                Option.some-injective u v
                  (sym h.kept ∙ ap (λ (k : Str). lookup k s.users) (sym same) ∙ found) in
              true≢false (
                sym (
                  ap not
                    (ap (λ (w : User). out.check_password w.password password) (sym v_is) ∙ wrong))
                ∙ fits) in
            update_at P _ _ s (
              (Keeps-set_network (unmarshal_username raw).1).at _ (
                IsStranger-client out responses name u s (record s.client { user = some username })
                  h (λ e. other (Option.some-injective username name e)) h.unbound h.given
                  h.wrong)))))

  Keeps-sasl_over : Keeps P sasl_over
  Keeps-sasl_over = Keeps-update _ (λ s h.
      IsStranger-client out responses name u s _ h h.apart h.unbound
        (λ before e. absurd (Option.none-ne-some before e)) h.wrong)

  Keeps-sasl_broken : Keeps P (sasl_broken out)
  Keeps-sasl_broken = Keeps-bind _ _ (Keeps-send frame _) (λ _. Keeps-fail _)

  Keeps-sasl_refused : (cmd : Command) (m : Message) → Keeps P (sasl_refused out cmd m)
  Keeps-sasl_refused cmd m = elim cmd as (λ c. Keeps P (sasl_refused out c m)) [
    | Command.reply Reply.err_passwdmismatch ↦
        Keeps-option (get_elem? m.params 1) _ _ (Keeps-lift _) (λ text. Keeps-fail _)
    | _ ↦ Keeps-sasl_broken
  ]

  Keeps-sasl_error : (e : Error) → Keeps P (sasl_error out e)
  Keeps-sasl_error e = elim e as (λ x. Keeps P (sasl_error out x)) [
    | irc_error m ↦ Keeps-sasl_refused m.command m
    | _ ↦ Keeps-sasl_broken
  ]

  Keeps-sasl_done : Keeps P (sasl_done out)
  unfolding sasl_done
  Keeps-sasl_done = Keeps-bind _ _ Keeps-sasl_over (λ _. Keeps-get _ (λ s h.
      (Keeps-the_user _
          (λ t n v k e. (Keeps-bind _ _ (Keeps-send frame _) (λ _. Keeps-send frame _)).at t k)).at
        s h))

  Keeps-sasl_checked : (r : Result (Unit {0})) → Keeps P (sasl_checked out r)
  Keeps-sasl_checked (ok a) = Keeps-sasl_done
  Keeps-sasl_checked (err e) = Keeps-bind _ _ Keeps-sasl_over (λ _. Keeps-sasl_error e)
  Keeps-sasl_checked panic = record { at = λ s h. h }

  Keeps-sasl_check :
      (username password : Str)
      → out.check_password u.password password ≡ false
      → Keeps P (sasl_check out username password)
  unfolding sasl_check
  Keeps-sasl_check username password wrong = record {
    at = λ s h.
        (Keeps-sasl_checked (authenticate out username password s).0).at _
          ((Keeps-authenticate username password wrong).at s h);
  }

  -- While the server reads no password that fits.
  module _ (wrong : IsWrong out responses u.password) where
    Keeps-sasl_answer :
        (given : List (Option Str)) (step : SaslStep)
        → All responses given
        → out.plain_next given ≡ step
        → Keeps P (sasl_answer out step)
    unfolding sasl_answer
    Keeps-sasl_answer given (challenge text) said e = Keeps-send frame _
    Keeps-sasl_answer given (check identity username password) said e =
        Keeps-sasl_check username password (wrong.sasl given identity username password said e)
    Keeps-sasl_answer given failed said e =
        Keeps-bind _ _ Keeps-sasl_over (λ _. Keeps-sasl_error sasl_failed)

    Keeps-sasl_next :
        (before : List (Option Str)) (resp : Option Str)
        → All responses before
        → responses resp
        → Keeps P (sasl_next out before resp)
    unfolding sasl_next
    Keeps-sasl_next before resp said now =
        let all : All responses (before ++ resp ∷ []) = All-snoc responses before resp said now in
        Keeps-bind _ _
          (Keeps-update _ (λ s h.
            IsStranger-client out responses name u s _ h h.apart h.unbound
              (λ given e.
                subst (All responses) (Option.some-injective (before ++ resp ∷ []) given e) all)
              h.wrong))
          (λ _.
            Keeps-sasl_answer (before ++ resp ∷ []) (out.plain_next (before ++ resp ∷ [])) all refl)

    Keeps-sasl_first : (arg : Str) → Keeps P (sasl_first out arg)
    unfolding sasl_first
    Keeps-sasl_first arg = Keeps-if _ _ _ (Keeps-sasl_next [] none tt wrong.no_text) (Keeps-fail _)

    sasl_response_at :
        (before : List (Option Str)) (arg : Str) (s : Session)
        → P s
        → All responses before
        → ((resp : Str) → out.base64_decode arg ≡ some resp → responses (some resp))
        → P (sasl_response out before arg s).1
    unfolding sasl_response
    sasl_response_at before arg s h said tells =
        if_at P (str_eq arg (codes "*")) _ _ s
          ((Keeps-bind _ _ Keeps-sasl_over (λ _. Keeps-fail _)).at s h)
          (if_at P (str_eq arg (codes "+")) _ _ s
            ((Keeps-sasl_next before none said wrong.no_text).at s h)
            (option_at P (out.base64_decode arg) _ _ s
              ((Keeps-bind _ _ Keeps-sasl_over (λ _. Keeps-fail _)).at s h)
              (λ resp e. (Keeps-sasl_next before (some resp) said (tells resp e)).at s h)))

    pub Keeps-handle_sasl :
        (params : List Str) → Tells out responses params → Keeps P (handle_sasl out params)
    unfolding handle_sasl
    Keeps-handle_sasl [] tells =
        Keeps-get _ (λ s h. if_at P (not (is_enabled s.client.caps (codes "sasl"))) _ _ s h h)
    Keeps-handle_sasl (arg ∷ args) tells = Keeps-get _ (λ s h.
        if_at P (not (is_enabled s.client.caps (codes "sasl"))) _ _ s h (
          if_at P (str_eq s.client.nick []) _ _ s h (
            option_at P s.client.sasl_server _ _ s ((Keeps-sasl_first arg).at s h)
              (λ before e. sasl_response_at before arg s h (h.given before e) tells))))
