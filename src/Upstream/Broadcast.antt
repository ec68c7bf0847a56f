-- ===== src/Upstream/Broadcast.antt =====
-- `forEachDownstream`: what the connection does to each client that follows its network.
use soju.Prelude.{ℕ, ◌≡◌, refl, Bool, List, [], ◌∷◌, map, arith, if◌then◌else◌}
use soju.Irc.{Message}
use soju.Irc.Result.{Result, ok, err, panic, ◌>>=◌, Step}
use soju.Conn.{UpstreamConn, DownstreamConn, deliver, points_at}
use soju.Upstream.{World, Handler}

-- `dc.network != nil && dc.network != uc.network`, negated: the clients are those of the user that has the network.
abbrev pub follows : ℕ → DownstreamConn → Bool
follows network dc = points_at dc network

unfoldable pub visit :
    ℕ
    → (DownstreamConn → Result DownstreamConn)
    → List DownstreamConn
    → Result (List DownstreamConn)
visit network f [] = ok []
visit network f (dc ∷ dcs) = do
  dc' ← (if follows network dc then f dc else ok dc)
  rest ← visit network f dcs
  ok (dc' ∷ rest)

abbrev pub visited : World → Result (List DownstreamConn) → Step World (Unit {0})
visited w (ok dcs) = (ok tt, record w { downstreams = dcs })
visited w (err e) = (err e, w)
visited w panic = (panic, w)

unfoldable pub for_each_downstream :
    (UpstreamConn → DownstreamConn → Result DownstreamConn) → Handler (Unit {0})
unfolding visit
for_each_downstream f w = visited w (visit w.conn.network_ref (f w.conn) w.downstreams)

-- Every client that follows the network is sent one message.
abbrev pub broadcast : (UpstreamConn → DownstreamConn → Message) → Handler (Unit {0})
broadcast f = for_each_downstream (λ uc dc. ok (deliver (f uc dc) dc))

-- The clients after a broadcast.
abbrev pub told : ℕ → (DownstreamConn → Message) → DownstreamConn → DownstreamConn
told network f dc = if follows network dc then deliver (f dc) dc else dc

visit-ok :
    (network : ℕ) (f : DownstreamConn → Message) (dcs : List DownstreamConn)
    → visit network (λ dc. ok (deliver (f dc) dc)) dcs ≡ ok (map (told network f) dcs)
unfolding visit
visit-ok network f [] = refl
visit-ok network f (dc ∷ dcs) = ground (arith, visit-ok network f dcs)

-- A broadcast succeeds, and appends its message for each client that follows the network, and nothing
-- for the others.
pub broadcast_lem :
    (f : UpstreamConn → DownstreamConn → Message) (w : World)
    → broadcast f w
      ≡ (ok tt, record w { downstreams = map (told w.conn.network_ref (f w.conn)) w.downstreams })
unfolding for_each_downstream
broadcast_lem f w = ground (arith, visit-ok w.conn.network_ref (f w.conn) w.downstreams)
