-- ===== src/Upstream/Invariant.antt =====
-- What holds of a connection whatever messages its server sends.
use mathlib.Core.Option
use soju.Prelude.{
  ℕ, zero, suc, ◌+◌, ◌^◌, ◌<◌, ◌≡◌, ◌≢◌, ◌⊎◌, refl, sym, ap, ◌∙◌, Bool, true, false, not, Option,
  none, some, List, [], ◌∷◌, ◌++◌, if◌then◌else◌, arith, Bool-cases, Option-cases, inl, inr, length,
  length-append, get_elem?, All, subst, Outcome,
}
use soju.Prelude
use soju.Irc.{Message, Command, Reply}
use soju.Irc.Result.{Error, Result, ok, err, panic, bind-eq-ok}
use soju.Irc.Result
use soju.Ring.{Memory, produce}
use soju.Conn.{DownstreamConn}
use soju.Upstream.{Env, World}
use soju.Upstream.Broadcast.{follows, visit}
use soju.Upstream.Handle.{
  produce_message, handle_privmsg, handle_reply, handle_command, handle_message,
}
use soju.Upstream.Keeps.{
  IsConsistent, IsStable, Fine, Fine-run, Keeps, Keeps-bind, Keeps-lift, Keeps-finish,
}
use soju.Upstream.Stable.{Keeps-send, Keeps-broadcast}
use soju.Upstream.Total.{
  parse-safe, handle_welcome-Keeps, handle_myinfo-Keeps, handle_loggedin-Keeps, handle_cap-Keeps,
  handle_authenticate-Keeps, handle_sasl_end-Keeps,
}
use soju.Upstream.ChannelsKeep.{
  IsSafe, handle_mode-Keeps, handle_nick-Keeps, handle_join-Keeps, handle_part-Keeps,
  handle_quit-Keeps, handle_rpl_topic-Keeps, handle_topic-Keeps, handle_topicwhotime-Keeps,
  handle_namreply-Keeps, handle_endofnames-Keeps,
}

module _ {P : World → Type 0} {Q : Type 0} (s : IsStable P Q) where
  handle_reply-Keeps :
      (env : Env) (r : Reply) (msg : Message)
      → (Q → IsSafe (Command.reply r) msg)
      → Keeps P Q (handle_reply env r msg)
  unfolding handle_reply
  handle_reply-Keeps env Reply.rpl_welcome msg safe = handle_welcome-Keeps s env
  handle_reply-Keeps env Reply.rpl_myinfo msg safe = handle_myinfo-Keeps s env msg
  handle_reply-Keeps env Reply.rpl_topic msg safe = handle_rpl_topic-Keeps s env true msg
  handle_reply-Keeps env Reply.rpl_notopic msg safe = handle_rpl_topic-Keeps s env false msg
  handle_reply-Keeps env Reply.rpl_namreply msg safe = handle_namreply-Keeps s env msg safe
  handle_reply-Keeps env Reply.rpl_endofnames msg safe = handle_endofnames-Keeps s env msg
  handle_reply-Keeps env _ msg safe = Keeps-finish

  -- PRIVMSG, under a rule for the ring.
  handle_privmsg-Keeps :
      (env : Env) (msg : Message)
      → Keeps P Q (produce_message msg)
      → Keeps P Q (handle_privmsg env msg)
  unfolding handle_privmsg
  handle_privmsg-Keeps env msg kp =
      Keeps-bind _ _ (Keeps-lift _ (λ _. parse-safe env.text msg 2)) (λ out. kp)

  pub handle_command-Keeps :
      (env : Env) (cmd : Command) (msg : Message)
      → (Q → IsSafe cmd msg)
      → (cmd ≡ Command.privmsg → Keeps P Q (produce_message msg))
      → Keeps P Q (handle_command env cmd msg)
  unfolding handle_command
  handle_command-Keeps env Command.ping msg safe kp = Keeps-send s _
  handle_command-Keeps env Command.mode msg safe kp = handle_mode-Keeps s env msg
  handle_command-Keeps env Command.notice msg safe kp = Keeps-broadcast s _
  handle_command-Keeps env Command.capability msg safe kp = handle_cap-Keeps s env msg
  handle_command-Keeps env Command.authenticate msg safe kp = handle_authenticate-Keeps s env msg
  handle_command-Keeps env Command.rpl_loggedin msg safe kp = handle_loggedin-Keeps s env msg
  handle_command-Keeps env Command.err_nicklocked msg safe kp = handle_sasl_end-Keeps s env msg
  handle_command-Keeps env Command.rpl_saslsuccess msg safe kp = handle_sasl_end-Keeps s env msg
  handle_command-Keeps env Command.err_saslfail msg safe kp = handle_sasl_end-Keeps s env msg
  handle_command-Keeps env Command.err_sasltoolong msg safe kp = handle_sasl_end-Keeps s env msg
  handle_command-Keeps env Command.err_saslaborted msg safe kp = handle_sasl_end-Keeps s env msg
  handle_command-Keeps env Command.nick msg safe kp = handle_nick-Keeps s env msg
  handle_command-Keeps env Command.join msg safe kp = handle_join-Keeps s env msg
  handle_command-Keeps env Command.part msg safe kp = handle_part-Keeps s env msg
  handle_command-Keeps env Command.quit msg safe kp = handle_quit-Keeps s msg
  handle_command-Keeps env Command.topic msg safe kp = handle_topic-Keeps s env msg safe
  handle_command-Keeps env Command.rpl_topicwhotime msg safe kp =
      handle_topicwhotime-Keeps s env msg
  handle_command-Keeps env Command.privmsg msg safe kp = handle_privmsg-Keeps env msg (kp refl)
  handle_command-Keeps env (Command.reply r) msg safe kp = handle_reply-Keeps env r msg safe
  handle_command-Keeps env _ msg safe kp = Keeps-finish

  pub handle_message-Keeps :
      (env : Env) (msg : Message)
      → (Q → IsSafe msg.command msg)
      → Keeps P Q (produce_message msg)
      → Keeps P Q (handle_message env msg)
  unfolding handle_message
  handle_message-Keeps env msg safe kp = handle_command-Keeps env msg.command msg safe (λ e. kp)

  pub produce_message-Keeps :
      (msg : Message)
      → ((w : World) (ring : Memory Message)
          → P w
          → produce msg w.conn.ring ≡ Prelude.ok ring
          → P (record w { conn = record w.conn { ring = ring } }))
      → (Q → (w : World) → P w → produce msg w.conn.ring ≢ Prelude.panic)
      → Keeps P Q (produce_message msg)
  unfolding produce_message
  produce_message-Keeps msg keep safe = record { at = λ w h. go w h (produce msg w.conn.ring) refl }
    where
      go :
          (w : World)
          → P w
          → (r : Outcome (Memory Message)) → produce msg w.conn.ring ≡ r
          → Fine P Q (produce_message msg w)
      go w h (Prelude.ok ring) e =
          Fine-run P Q {o = produce_message msg w}
            {o' = (ok tt, record w { conn = record w.conn { ring = ring } })} (ground arith)
            (keep w ring h e, λ q. λ x. cc)
      go w h Prelude.panic e =
          Fine-run P Q {o = produce_message msg w} {o' = (panic, w)} (ground arith)
            (h, λ q. λ x. safe q w h e)

-- If each channel is held under its own name, and a SASL exchange that has started has a client, then
-- that is so again after any message of the server, whether its handler succeeds, fails or panics.
pub handle_message-IsConsistent :
    (env : Env) (msg : Message) (w : World)
    → IsConsistent w.conn
    → IsConsistent (handle_message env msg w).1.conn
handle_message-IsConsistent env msg w h =
    ((handle_message-Keeps stable env msg (λ q. absurd q)
        (produce_message-Keeps stable msg
          (λ w' ring c e. record { named = c.named; started = c.started }) (λ q. absurd q))).at
      w h).0
  where
    stable : IsStable (λ v. IsConsistent v.conn) ⊥
    stable = record {
      consistent = λ v c. c;
      change = λ v uc c core c'. c';
      visits = λ v f dcs c e. c;
      is_open = λ q. absurd q;
    }

visited-others :
    (network : ℕ) (f : DownstreamConn → Result DownstreamConn) (d d' : DownstreamConn)
    (before rest : List DownstreamConn) (i : ℕ) (dc : DownstreamConn)
    → (if follows network d then f d else ok d) ≡ ok d'
    → ((j : ℕ) → get_elem? before j ≡ some dc → get_elem? rest j ≡ some dc)
    → get_elem? (d ∷ before) i ≡ some dc
    → follows network dc ≡ false
    → get_elem? (d' ∷ rest) i ≡ some dc
visited-others network f d d' before rest zero dc e ih g o =
    let p : d ≡ dc = Option.some-injective d dc g in
    let q : follows network d ≡ false = ap (follows network) p ∙ o in ground (arith, p, q, e)
visited-others network f d d' before rest (suc i) dc e ih g o = ih i g

visit-others :
    (network : ℕ) (f : DownstreamConn → Result DownstreamConn) (before after : List DownstreamConn)
    (i : ℕ) (dc : DownstreamConn)
    → visit network f before ≡ ok after
    → get_elem? before i ≡ some dc
    → follows network dc ≡ false
    → get_elem? after i ≡ some dc
unfolding visit
visit-others network f [] after i dc e g o = cc
visit-others network f (d ∷ before) after i dc e g o =
    let (d', e1, e2) =
      bind-eq-ok (if follows network d then f d else ok d)
        (λ x. Result.◌>>=◌ (visit network f before) (λ rest. ok (x ∷ rest))) e in
    let (rest, e3, e4) = bind-eq-ok (visit network f before) (λ rest. ok (d' ∷ rest)) e2 in
    cc_after after (d' ∷ rest) e4 (
      visited-others network f d d' before rest i dc e1
        (λ j g'. visit-others network f before rest j dc e3 g' o) g o)
  where
    cc_after :
        (a b : List DownstreamConn)
        → ok b ≡ ok a
        → get_elem? b i ≡ some dc
        → get_elem? a i ≡ some dc
    cc_after a b e' h =
        let p : b ≡ a = cc in ap (λ (l : List DownstreamConn). get_elem? l i) (sym p) ∙ h

-- The clients of `before` that do not follow the network `r` are as they were.
record SparesOthers (r : ℕ) (before : List DownstreamConn) (w : World) : Type 0 where
  consistent : IsConsistent w.conn
  network : w.conn.network_ref ≡ r
  spares :
      (i : ℕ) (dc : DownstreamConn)
      → get_elem? before i ≡ some dc
      → follows r dc ≡ false
      → get_elem? w.downstreams i ≡ some dc

-- Whatever message a server sends on a consistent connection, a client that is bound to another network
-- is not changed by it, so it is sent nothing, and stays at its place among the clients of the user.
pub handle_message_isolates :
    (env : Env) (msg : Message) (w : World)
    → IsConsistent w.conn
    → (i : ℕ) (dc : DownstreamConn) → get_elem? w.downstreams i ≡ some dc
    → follows w.conn.network_ref dc ≡ false
    → get_elem? (handle_message env msg w).1.downstreams i ≡ some dc
handle_message_isolates env msg w c i dc g o =
    ((handle_message-Keeps stable env msg (λ q. absurd q)
          (produce_message-Keeps stable msg
            (λ v ring h e. record {
              consistent = record { named = h.consistent.named; started = h.consistent.started };
              network = h.network;
              spares = h.spares;
            })
            (λ q. absurd q))).at
        w (record { consistent = c; network = refl; spares = λ j d e x. e })).0.spares
      i dc g o
  where
    stable : IsStable (SparesOthers w.conn.network_ref w.downstreams) ⊥
    stable = record {
      consistent = λ v h. h.consistent;
      change = λ v uc h core c'. record {
        consistent = c';
        network = core.network_ref ∙ h.network;
        spares = h.spares;
      };
      visits = λ v f dcs h e. record {
        consistent = h.consistent;
        network = h.network;
        spares = λ j d at_j out.
            visit-others v.conn.network_ref f v.downstreams dcs j d e (h.spares j d at_j out)
              (rw h.network out);
      };
      is_open = λ q. absurd q;
    }

record IsAt (r : ℕ) (w : World) : Type 0 where
  consistent : IsConsistent w.conn
  network : w.conn.network_ref ≡ r

-- No handler moves the connection to another network.
pub handle_message-place :
    (env : Env) (msg : Message) (w : World)
    → IsConsistent w.conn
    → (handle_message env msg w).1.conn.network_ref ≡ w.conn.network_ref
handle_message-place env msg w c =
    ((handle_message-Keeps stable env msg (λ q. absurd q)
        (produce_message-Keeps stable msg
          (λ v ring h e. record {
            consistent = record { named = h.consistent.named; started = h.consistent.started };
            network = h.network;
          })
          (λ q. absurd q))).at
      w (record { consistent = c; network = refl })).0.network
  where
    stable : IsStable (IsAt w.conn.network_ref) ⊥
    stable = record {
      consistent = λ v h. h.consistent;
      change = λ v uc h core c'. record { consistent = c'; network = core.network_ref ∙ h.network };
      visits = λ v f dcs h e. record { consistent = h.consistent; network = h.network };
      is_open = λ q. absurd q;
    }
