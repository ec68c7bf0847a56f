-- ===== src/Downstream/Frame/Resolve.antt =====
-- `unmarshalChannel` returns a connection that `forEachUpstream` of the client visits.
use mathlib.Core.Option
use soju.Prelude.{
  ℕ, ◌≡◌, refl, sym, ap, ◌∙◌, subst, Bool, true, false, Option, none, some, List, [], ◌∷◌,
  Option-cases, if◌then◌else◌, inl, inr,
}
use soju.Prelude.Text.{Str}
use soju.Prelude.Dict.{lookup}
use soju.Irc.Result.{Result, ok, err, irc_error}
use soju.Conn.{UpstreamChannel, UpstreamConn, DownstreamConn}
use soju.Downstream.Routing.{
  is_visited, upstreams, last_of, upstream, search_step, search_all, unmarshal_channel,
  no_such_channel,
}

-- What every connection of a list has, the loops over them find.
module _ (Q : UpstreamConn → Type 0) where
  abbrev Each : List UpstreamConn → Type 0
  Each [] = Unit {0}
  Each (uc ∷ ucs) = Q uc × Each ucs

  -- The loop over the channels finds the connection that it visits.
  search_step-visits :
      (name : Str) (uc : UpstreamConn) (st : Option (UpstreamConn × UpstreamChannel) × Bool)
      → Q uc
      → ((f : UpstreamConn × UpstreamChannel) → st.0 ≡ some f → Q f.0)
      → (f : UpstreamConn × UpstreamChannel) → (search_step name uc st).0 ≡ some f
      → Q f.0
  unfolding search_step
  search_step-visits name uc (found, true) q old f e = old f e
  search_step-visits name uc (found, false) q old f e =
      elim (Option-cases (lookup name uc.channels)) [
        | inl missing ↦ old f (sym (passed missing) ∙ e)
        | inr (ch, has) ↦ with_found has found old e
      ]
    where
      passed : lookup name uc.channels ≡ none → (search_step name uc (found, false)).0 ≡ found
      passed missing = unfold search_step in rw missing refl

      with_found :
          {ch : UpstreamChannel}
          → lookup name uc.channels ≡ some ch
          → (before : Option (UpstreamConn × UpstreamChannel))
          → ((g : UpstreamConn × UpstreamChannel) → before ≡ some g → Q g.0)
          → (search_step name uc (before, false)).0 ≡ some f
          → Q f.0
      with_found {ch} has none old' e' =
          subst Q
            (ap (λ (g : UpstreamConn × UpstreamChannel). g.0)
              (Option.some-injective (uc, ch) f (sym (unfold search_step in rw has refl) ∙ e')))
            q
      with_found {ch} has (some g) old' e' = old' f (sym (unfold search_step in rw has refl) ∙ e')

  search_all-visits :
      (name : Str) (ucs : List UpstreamConn) (st : Option (UpstreamConn × UpstreamChannel) × Bool)
      → Each ucs
      → ((f : UpstreamConn × UpstreamChannel) → st.0 ≡ some f → Q f.0)
      → (f : UpstreamConn × UpstreamChannel) → (search_all name ucs st).0 ≡ some f
      → Q f.0
  unfolding search_all
  search_all-visits name [] st each old f e = old f e
  search_all-visits name (uc ∷ ucs) st (q, each) old f e =
      search_all-visits name ucs (search_step name uc st) each (search_step-visits name uc st q old)
        f e

  last_of-visits :
      (found : Option UpstreamConn) (ucs : List UpstreamConn) (uc : UpstreamConn)
      → ((x : UpstreamConn) → found ≡ some x → Q x)
      → Each ucs
      → last_of found ucs ≡ some uc
      → Q uc
  last_of-visits found [] uc old each e = old uc e
  last_of-visits found (x ∷ ucs) uc old (q, each) e =
      last_of-visits (some x) ucs uc (λ y h. subst Q (Option.some-injective x y h) q) each e

abbrev Visited : DownstreamConn → UpstreamConn → Type 0
Visited dc uc = is_visited dc uc ≡ true

upstreams-Visited :
    (dc : DownstreamConn) (networks : List (Option UpstreamConn))
    → Each (Visited dc) (upstreams dc networks)
unfolding upstreams
upstreams-Visited dc [] = tt
upstreams-Visited dc (none ∷ networks) = upstreams-Visited dc networks
upstreams-Visited dc (some uc ∷ networks) =
    kept (is_visited dc uc) refl (upstreams-Visited dc networks)
  where
    kept :
        (b : Bool)
        → is_visited dc uc ≡ b
        → Each (Visited dc) (upstreams dc networks)
        → Each (Visited dc) (if b then uc ∷ upstreams dc networks else upstreams dc networks)
    kept true e rest = (e, rest)
    kept false e rest = rest

upstream-Visited :
    (dc : DownstreamConn) (networks : List (Option UpstreamConn)) (uc : UpstreamConn)
    → upstream dc networks ≡ some uc
    → is_visited dc uc ≡ true
unfolding upstream
upstream-Visited dc networks uc e = bound dc.network e
  where
    bound :
        (n : Option (Str × ℕ))
        → (elim n [ none ↦ none | some i ↦ last_of none (upstreams dc networks) ]) ≡ some uc
        → is_visited dc uc ≡ true
    bound none h = absurd (Option.none-ne-some uc h)
    bound (some i) h =
        last_of-visits (Visited dc) none (upstreams dc networks) uc
          (λ x impossible. absurd (Option.none-ne-some x impossible))
          (upstreams-Visited dc networks) h

conn_eq :
    {x uc : UpstreamConn} {s t : Str}
    → ◌≡◌ {A = Result (UpstreamConn × Str)} (ok (x, s)) (ok (uc, t))
    → x ≡ uc
conn_eq e = cc

pub unmarshal_channel-Visited :
    (dc : DownstreamConn) (networks : List (Option UpstreamConn)) (name : Str) (uc : UpstreamConn)
    (upstream_name : Str)
    → unmarshal_channel dc networks name ≡ ok (uc, upstream_name)
    → is_visited dc uc ≡ true
unfolding unmarshal_channel upstream
unmarshal_channel-Visited dc networks name uc upstream_name e = routed (upstream dc networks) refl e
  where
    each : Each (Visited dc) (upstreams dc networks)
    each = upstreams-Visited dc networks

    chosen : Option (UpstreamConn × UpstreamChannel) → Result (UpstreamConn × Str)
    chosen none = err (irc_error (no_such_channel name))
    chosen (some (x, ch)) = ok (x, ch.name)

    searched :
        (found : Option (UpstreamConn × UpstreamChannel))
        → (search_all name (upstreams dc networks) (none, false)).0 ≡ found
        → chosen found ≡ ok (uc, upstream_name)
        → is_visited dc uc ≡ true
    searched none h f = cc
    searched (some (x, ch)) h f = subst (Visited dc) (conn_eq f) (
        search_all-visits (Visited dc) name (upstreams dc networks) (none, false) each
          (λ g impossible. absurd (Option.none-ne-some g impossible)) (x, ch) h)

    routed :
        (o : Option UpstreamConn)
        → upstream dc networks ≡ o
        → (elim o [
          | some x ↦ ok (x, name)
          | none ↦ chosen (search_all name (upstreams dc networks) (none, false)).0
        ])
          ≡ ok (uc, upstream_name)
        → is_visited dc uc ≡ true
    routed none h f = searched (search_all name (upstreams dc networks) (none, false)).0 refl f
    routed (some x) h f = subst (Visited dc) (conn_eq f) (upstream-Visited dc networks x h)
