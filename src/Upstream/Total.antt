-- ===== src/Upstream/Total.antt =====
-- Every handler keeps a stable invariant.
use soju.Prelude.{
  ℕ, ◌≡◌, ◌≢◌, ◌⊎◌, refl, sym, ap, ◌∙◌, Bool, true, none, some, List, [], ◌∷◌, ◌++◌, arith,
  Bool-cases, Option-cases, inl, inr,
}
use soju.Prelude.Text.{Str}
use soju.Prelude.Strings.{fields}
use soju.Prelude.Dict.{Dict, lookup}
use soju.Irc.{Message, Reply}
use soju.Irc.Result.{Error, Result, ok, err, panic, unexpected_authenticate, decode_failed}
use soju.Irc.Params.{parse_message_params, param}
use soju.Conn.{SaslClient, UpstreamConn}
use soju.Upstream.{Env, World, modify, ◌>>=◌}
use soju.Upstream.Registration.{
  handle_cap_ack, ack_all, cap_ack, cap_ls, missing, cap_command, handle_cap, join_all,
  handle_welcome, handle_myinfo,
}
use soju.Upstream.Authenticate.{
  abort, decode_challenge, ask_client, answer, challenge_client, handle_authenticate,
  handle_loggedin, handle_sasl_end,
}
use soju.Upstream.Keeps.{
  IsStable, Fine, Fine-run, Keeps, Keeps-continue, Keeps-bind, Keeps-fail, Keeps-option,
  Keeps-network, Keeps-finish, Keeps-lift, Keeps-if, Keeps-conn, keeps_rules,
}
use soju.Upstream.Stable.{Keeps-modify, Keeps-send}

pub parse-safe :
    (text : Reply → Str) (msg : Message) (n : ℕ) → parse_message_params text msg n ≢ panic
unfolding parse_message_params
parse-safe text msg n e = ground arith

-- The two agree on all that the invariants read.
abbrev IsAside : UpstreamConn → UpstreamConn → Type 0
IsAside a b =
    (a.network_ref ≡ b.network_ref)
    × (a.closed ≡ b.closed)
    × (a.ring ≡ b.ring)
    × (a.channels ≡ b.channels)
    × (a.sasl_started ≡ b.sasl_started)
    × (a.sasl_client ≡ b.sasl_client)

module _ {P : World → Type 0} {Q : Type 0} (s : IsStable P Q) where
  -- A change of fields that the invariants do not read.
  Keeps-adjust :
      (f : UpstreamConn → UpstreamConn)
      → ((uc : UpstreamConn) → IsAside (f uc) uc)
      → Keeps P Q (modify f)
  Keeps-adjust f aside =
      Keeps-modify s f
        (λ uc.
          let (net, shut, ring, _, _, _) = aside uc in
          record { network_ref = net; closed = shut; ring = ring })
        (λ uc c.
          let (_, _, _, chans, started, client) = aside uc in
          record {
            named = λ k ch l. c.named k ch (ap (lookup k) (sym chans) ∙ l);
            started = λ e n. c.started (sym started ∙ e) (sym client ∙ n);
          })

  join_all-Keeps : (names : List Str) → Keeps P Q (join_all names)
  unfolding join_all
  join_all-Keeps [] = search keeps_rules
  join_all-Keeps (name ∷ names) = Keeps-bind _ _ (Keeps-send s _) (λ _. join_all-Keeps names)

  pub handle_welcome-Keeps : (env : Env) → Keeps P Q (handle_welcome env)
  unfolding handle_welcome
  handle_welcome-Keeps env =
      Keeps-bind _ _ (Keeps-adjust _ (λ uc. (refl, refl, refl, refl, refl, refl)))
        (λ _. Keeps-bind _ _ Keeps-network (λ n. Keeps-option _ _ _ Keeps-finish join_all-Keeps))

  pub handle_myinfo-Keeps : (env : Env) (msg : Message) → Keeps P Q (handle_myinfo env msg)
  unfolding handle_myinfo
  handle_myinfo-Keeps env msg =
      Keeps-bind _ _ (Keeps-lift _ (λ _. parse-safe env.text msg 5)) (λ out.
        Keeps-bind _ _ (Keeps-adjust _ (λ uc. (refl, refl, refl, refl, refl, refl))) (λ _.
          Keeps-if _ _ _ (Keeps-adjust _ (λ uc. (refl, refl, refl, refl, refl, refl)))
            Keeps-finish))

  pub handle_loggedin-Keeps : (env : Env) (msg : Message) → Keeps P Q (handle_loggedin env msg)
  unfolding handle_loggedin
  handle_loggedin-Keeps env msg = search (keeps_rules, parse-safe env.text msg 3)

  Keeps-adjust_caps :
      (caps : UpstreamConn → Dict Str) → Keeps P Q (modify (λ uc. record uc { caps = caps uc }))
  Keeps-adjust_caps caps = Keeps-adjust _ (λ uc. (refl, refl, refl, refl, refl, refl))

  -- A new client replaces whatever exchange there was.
  set_client_Keeps :
      (client : SaslClient) → Keeps P Q (modify (λ uc. record uc { sasl_client = some client }))
  set_client_Keeps client =
      Keeps-modify s _ (λ uc. record { network_ref = refl; closed = refl; ring = refl })
        (λ uc c. record { named = c.named; started = λ e n. cc n })

  handle_cap_ack-Keeps : (name : Str) (accepted : Bool) → Keeps P Q (handle_cap_ack name accepted)
  unfolding handle_cap_ack
  handle_cap_ack-Keeps name accepted =
      Keeps-if _ _ _
        (Keeps-bind _ _ Keeps-network (λ n. Keeps-if _ _ _ Keeps-finish (
          Keeps-if _ _ _ (Keeps-bind _ _ (set_client_Keeps _) (λ _. Keeps-send s _))
            (Keeps-fail _))))
        Keeps-finish

  ack_all-Keeps : (names : List Str) (accepted : Bool) → Keeps P Q (ack_all names accepted)
  unfolding ack_all
  ack_all-Keeps [] accepted = Keeps-finish
  ack_all-Keeps (name ∷ names) accepted =
      Keeps-bind _ _ (handle_cap_ack-Keeps _ accepted) (λ _. ack_all-Keeps names accepted)

  cap_ack-Keeps : (names : Str) (accepted : Bool) → Keeps P Q (cap_ack names accepted)
  unfolding cap_ack
  cap_ack-Keeps names accepted = Keeps-bind _ _ (ack_all-Keeps (fields names) accepted) (λ _.
      Keeps-bind _ _ Keeps-conn (λ uc. Keeps-option _ _ _ (Keeps-send s _) (λ _. Keeps-finish)))

  cap_ls-Keeps : (params sub_params : List Str) → Keeps P Q (cap_ls params sub_params)
  unfolding cap_ls
  cap_ls-Keeps params sub_params = Keeps-bind _ _ (Keeps-adjust_caps _) (λ _.
      Keeps-if _ _ _ Keeps-finish (
        Keeps-bind _ _ Keeps-network (λ n.
          Keeps-bind _ _ Keeps-conn (λ uc. Keeps-if _ _ _ (Keeps-send s _) (Keeps-send s _)))))

  missing-Keeps : (env : Env) (msg : Message) → Keeps P Q (missing env msg)
  unfolding missing
  missing-Keeps env msg = Keeps-fail _

  cap_command-Keeps :
      (env : Env) (msg : Message) (sub_cmd : Str) (sub_params : List Str)
      → Keeps P Q (cap_command env msg sub_cmd sub_params)
  unfolding cap_command
  cap_command-Keeps env msg sub_cmd sub_params =
      search (keeps_rules, missing-Keeps, cap_ls-Keeps, cap_ack-Keeps)

  pub handle_cap-Keeps : (env : Env) (msg : Message) → Keeps P Q (handle_cap env msg)
  unfolding handle_cap
  handle_cap-Keeps env msg =
      Keeps-bind _ _ (Keeps-lift _ (λ _. parse-safe env.text msg 2))
        (λ out. cap_command-Keeps env msg _ _)

  abort-Keeps : (e : Error) → Keeps P Q (abort e)
  unfolding abort
  abort-Keeps e = Keeps-bind _ _ (Keeps-send s _) (λ _. Keeps-fail {A = Unit {0}} e)

  -- The client is asked only where there is one.
  ask_client-Fine :
      (env : Env) (client : SaslClient) (challenge : Str) (w : World)
      → P w
      → w.conn.sasl_client ≡ some client
      → Fine P Q (ask_client env client challenge w)
  unfolding ask_client ◌>>=◌
  ask_client-Fine env client challenge w h e = elim (Bool-cases w.conn.sasl_started) [
    | inl begun ↦
        Fine-run P Q {o = ask_client env client challenge w}
          {o' = (ok (env.sasl_next client challenge), asked)} (ground arith)
          (
            s.change w asked.conn h (record { network_ref = refl; closed = refl; ring = refl })
                (record { named = (s.consistent w h).named; started = λ b n. cc n }),
            λ q. λ x. cc,
          )
    | inr fresh ↦
        Fine-run P Q {o = ask_client env client challenge w}
          {o' = (ok (env.sasl_start client), begun)} (ground arith)
          (
            s.change w begun.conn h (record { network_ref = refl; closed = refl; ring = refl })
                (record { named = (s.consistent w h).named; started = λ b n. cc (e, n) }),
            λ q. λ x. cc,
          )
  ]
    where
      asked : World
      asked = record w {
        conn = record w.conn {
          sasl_client = some (record client { challenges = client.challenges ++ challenge ∷ [] });
        };
      }

      begun : World
      begun = record w { conn = record w.conn { sasl_started = true } }

  answer-Fine :
      (env : Env) (client : SaslClient) (challenge : Str) (w : World)
      → P w
      → w.conn.sasl_client ≡ some client
      → Fine P Q (answer env client challenge w)
  unfolding answer ◌>>=◌
  answer-Fine env client challenge w h e =
      let f = ask_client-Fine env client challenge w h e in
      Keeps-continue _ _ _ f.0 f.1
        (λ r. Keeps-option _ _ _ (abort-Keeps _) (λ resp. Keeps-send s _))

  challenge_client-Fine :
      (env : Env) (client : SaslClient) (r : Result (List Str)) (w : World)
      → P w
      → (Q → r ≢ panic)
      → w.conn.sasl_client ≡ some client
      → Fine P Q (challenge_client env client r w)
  unfolding challenge_client
  challenge_client-Fine env client (err x) w h safe e = (abort-Keeps x).at w h
  challenge_client-Fine env client panic w h safe e = (h, λ q. λ x. safe q refl)
  challenge_client-Fine env client (ok out) w h safe e =
      decoded (Option-cases (decode_challenge env (param out 0)))
    where
      decoded :
          (decode_challenge env (param out 0) ≡ none)
            ⊎ ((c : Str) × (decode_challenge env (param out 0) ≡ some c))
          → Fine P Q (challenge_client env client (ok out) w)
      decoded (inl bad) =
          Fine-run P Q {o = challenge_client env client (ok out) w} {o' = abort decode_failed w}
            (ground arith) ((abort-Keeps decode_failed).at w h)
      decoded (inr (c, good)) =
          Fine-run P Q {o = challenge_client env client (ok out) w} {o' = answer env client c w}
            (ground arith) (answer-Fine env client c w h e)

  pub handle_authenticate-Keeps :
      (env : Env) (msg : Message) → Keeps P Q (handle_authenticate env msg)
  unfolding handle_authenticate ◌>>=◌
  handle_authenticate-Keeps env msg = record {
    at = λ w h. elim (Option-cases w.conn.sasl_client) [
      | inl missing ↦
          Fine-run P Q {o = handle_authenticate env msg w} {o' = (err unexpected_authenticate, w)}
            (ground arith) (h, λ q. λ x. cc)
      | inr (client, e) ↦
          Fine-run P Q {o = handle_authenticate env msg w}
            {o' = challenge_client env client (parse_message_params env.text msg 1) w}
            (ground arith)
            (challenge_client-Fine env client _ w h (λ _. parse-safe env.text msg 1) e)
    ];
  }

  pub handle_sasl_end-Keeps : (env : Env) (msg : Message) → Keeps P Q (handle_sasl_end env msg)
  unfolding handle_sasl_end
  handle_sasl_end-Keeps env msg =
      Keeps-bind _ _ (Keeps-lift _ (λ _. parse-safe env.text msg 2)) (λ out.
        Keeps-bind _ _
          (Keeps-modify s _ (λ uc. record { network_ref = refl; closed = refl; ring = refl })
            (λ uc c. record { named = c.named; started = λ e n. cc e }))
          (λ _. Keeps-send s _))
