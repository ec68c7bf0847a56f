-- ===== src/Upstream/Stable.antt =====
-- The rules for the operations on the state, under a stable invariant.
use soju.Prelude.{
  ℕ, ◌≡◌, ◌≢◌, refl, some, List, [], ◌∷◌, ◌++◌, arith, Bool-cases, Option-cases, inl, inr,
}
use soju.Prelude.Text.{Str, str_eq, str_eq_iff}
use soju.Prelude.Dict.{
  lookup, insert, delete, update_all, lookup-insert, lookup-delete, lookup-update_all,
}
use soju.Irc.{Message}
use soju.Irc.Result.{Result, ok, err, panic, unknown_channel}
use soju.Conn.{UpstreamChannel, UpstreamConn, DownstreamConn, deliver}
use soju.Upstream.{World, Handler, modify, send_message, ◌>>=◌}
use soju.Upstream.Broadcast.{visit, visited, for_each_downstream, broadcast}
use soju.Upstream.Channels.{get_channel, put_channel}
use soju.Upstream.Keeps.{IsConsistent, SameCore, IsStable, Fine, Fine-run, Keeps}

insert-named :
    (name k : Str) (ch : UpstreamChannel) (uc : UpstreamConn) (found : UpstreamChannel)
    → IsConsistent uc
    → ch.name ≡ name
    → lookup k (insert name ch uc.channels) ≡ some found
    → found.name ≡ k
insert-named name k ch uc found c e l = elim (Bool-cases (str_eq name k)) [
  | inl same ↦ ground (arith, lookup-insert name k ch uc.channels, str_eq_iff name k, e)
  | inr other ↦ c.named k found (ground (arith, lookup-insert name k ch uc.channels))
]

pub delete-IsConsistent :
    (name : Str) (uc : UpstreamConn)
    → IsConsistent uc
    → IsConsistent (record uc { channels = delete name uc.channels })
delete-IsConsistent name uc c = record {
  named = λ k ch l. c.named k ch (ground (arith, lookup-delete name k uc.channels));
  started = c.started;
}

pub update_all-IsConsistent :
    (f : UpstreamChannel → UpstreamChannel) (nick : Str) (uc : UpstreamConn)
    → ((ch : UpstreamChannel) → (f ch).name ≡ ch.name)
    → IsConsistent uc
    → IsConsistent (record uc { nick = nick; channels = update_all f uc.channels })
update_all-IsConsistent f nick uc keeps c = record {
  named = λ k ch l. elim (Option-cases (lookup k uc.channels)) [
    | inl missing ↦ ground (arith, lookup-update_all f k uc.channels)
    | inr (old, found) ↦
        ground (arith, lookup-update_all f k uc.channels, keeps old, c.named k old found)
  ];
  started = c.started;
}

visit-safe :
    (network : ℕ) (f : DownstreamConn → Result DownstreamConn) (dcs : List DownstreamConn)
    → ((dc : DownstreamConn) → f dc ≢ panic)
    → visit network f dcs ≢ panic
unfolding visit
visit-safe network f [] safe = λ e. cc
visit-safe network f (dc ∷ dcs) safe = λ e. ground (arith, safe dc, visit-safe network f dcs safe)

abbrev sent : Message → World → World
sent msg w = record w { conn = record w.conn { outgoing = w.conn.outgoing ++ msg ∷ [] } }

module _ {P : World → Type 0} {Q : Type 0} (s : IsStable P Q) where
  pub Keeps-modify :
      (f : UpstreamConn → UpstreamConn)
      → ((uc : UpstreamConn) → SameCore (f uc) uc)
      → ((uc : UpstreamConn) → IsConsistent uc → IsConsistent (f uc))
      → Keeps P Q (modify f)
  Keeps-modify f core keep = record {
    at = λ w h.
        (s.change w (f w.conn) h (core w.conn) (keep w.conn (s.consistent w h)), λ q. λ e. cc);
  }

  pub Keeps-send : (msg : Message) → Keeps P Q (send_message msg)
  unfolding send_message
  Keeps-send msg = record {
    at = λ w h. elim (Bool-cases w.conn.closed) [
      | inl shut ↦
          Fine-run P Q {o = send_message msg w} {o' = (panic, w)} (ground arith)
            (h, λ q. λ e. cc (s.is_open q w h))
      | inr live ↦ Fine-run P Q {o = send_message msg w} {o' = (ok tt, sent msg w)} (ground arith) (
        s.change w (sent msg w).conn h (record { network_ref = refl; closed = refl; ring = refl })
            (record { named = (s.consistent w h).named; started = (s.consistent w h).started }),
        λ q. λ e. cc,
      )
    ];
  }

  pub Keeps-put_channel :
      (name : Str) (ch : UpstreamChannel) → ch.name ≡ name → Keeps P Q (put_channel name ch)
  Keeps-put_channel name ch e =
      Keeps-modify _ (λ uc. record { network_ref = refl; closed = refl; ring = refl })
        (λ uc c. record {
          named = λ k found l. insert-named name k ch uc found c e l;
          started = c.started;
        })

  -- What a handler does with a channel may use that the channel has the name that it was found under.
  pub Keeps-get_channel :
      {B : Type 0} (name : Str) (f : UpstreamChannel → Handler B)
      → ((ch : UpstreamChannel) → ch.name ≡ name → Keeps P Q (f ch))
      → Keeps P Q (get_channel name >>= f)
  unfolding get_channel ◌>>=◌
  Keeps-get_channel name f kf = record {
    at = λ w h. elim (Option-cases (lookup name w.conn.channels)) [
      | inl missing ↦
          Fine-run P Q {o = (get_channel name >>= f) w} {o' = (err (unknown_channel name), w)}
            (ground arith) (h, λ q. λ e. cc)
      | inr (ch, found) ↦
          Fine-run P Q {o = (get_channel name >>= f) w} {o' = f ch w} (ground arith)
            ((kf ch ((s.consistent w h).named name ch found)).at w h)
    ];
  }

  pub Keeps-for_each :
      (f : UpstreamConn → DownstreamConn → Result DownstreamConn)
      → (Q → (uc : UpstreamConn) (dc : DownstreamConn) → f uc dc ≢ panic)
      → Keeps P Q (for_each_downstream f)
  unfolding for_each_downstream
  Keeps-for_each f safe = record {
    at = λ w h. end w h (visit w.conn.network_ref (f w.conn) w.downstreams) refl;
  }
    where
      end :
          (w : World)
          → P w
          → (r : Result (List DownstreamConn))
          → visit w.conn.network_ref (f w.conn) w.downstreams ≡ r
          → Fine P Q (visited w r)
      end w h (ok dcs) e = (s.visits w (f w.conn) dcs h e, λ q. λ e'. cc)
      end w h (err x) e = (h, λ q. λ e'. cc)
      end w h panic e =
          (h, λ q. λ e'. visit-safe w.conn.network_ref (f w.conn) w.downstreams (safe q w.conn) e)

  pub Keeps-broadcast : (f : UpstreamConn → DownstreamConn → Message) → Keeps P Q (broadcast f)
  Keeps-broadcast f = Keeps-for_each (λ uc dc. ok (deliver (f uc dc) dc)) (λ q uc dc. λ e. cc)
