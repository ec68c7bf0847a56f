-- ===== src/Downstream/Caps/Granted.antt =====
-- What CAP REQ does to the capabilities of a client, and what it answers.
use soju.Prelude.{
  ◌≡◌, refl, ap, ◌∙◌, Bool, true, ◌&&◌, List, [], ◌∷◌, if◌then◌else◌, arith, Bool-cases, inl, inr,
}
use soju.Prelude.Text.{Str, codes, str_eq, str_eq_iff}
use soju.Prelude.Strings.{fields, to_upper, to_lower}
use soju.Prelude.Dict.{Dict, insert, lookup-insert}
use soju.Irc.Result.{ok, Step}
use soju.Conn.{DownstreamConn, deliver}
use soju.Downstream.Caps.{
  is_enabled, wanted, request, request_all, cap_reply, cap_req, handle_cap_command, is_granted,
  all_granted, sasl_after,
}

is_enabled-insert :
    (caps : Dict Bool) (name k : Str) (on : Bool)
    → is_enabled (insert name on caps) k ≡ (if str_eq name k then on else is_enabled caps k)
is_enabled-insert caps name k on = ground (arith, lookup-insert name k on caps)

request-granted :
    (item : Str) (ack : Bool) (caps : Dict Bool)
    → (request item (ack, caps)).0 ≡ (is_granted caps item && ack)
unfolding request
request-granted item ack caps = ground arith

request-is_enabled :
    (item : Str) (ack : Bool) (caps : Dict Bool) (k : Str)
    → is_enabled (request item (ack, caps)).1 k ≡ (
        if str_eq (wanted (to_lower item)).0 (codes "sasl") && str_eq (wanted (to_lower item)).0 k
        then (wanted (to_lower item)).1
        else is_enabled caps k)
unfolding request
request-is_enabled item ack caps k = ground (
  arith,
  is_enabled-insert caps (wanted (to_lower item)).0 k (wanted (to_lower item)).1,
  str_eq_iff (wanted (to_lower item)).0 k,
)

abbrev wanted_name : Str → Str
wanted_name item = (wanted (to_lower item)).0

-- A request changes only whether sasl is enabled, and so not what else is granted.
is_granted-request :
    (item other : Str) (ack : Bool) (caps : Dict Bool)
    → is_granted (request item (ack, caps)).1 other ≡ is_granted caps other
is_granted-request item other ack caps = ground (
  arith,
  request-is_enabled item ack caps (wanted (to_lower other)).0,
  str_eq_iff (wanted (to_lower item)).0 (codes "sasl"),
  str_eq_iff (wanted (to_lower item)).0 (wanted (to_lower other)).0,
  str_eq_iff (wanted (to_lower other)).0 (codes "sasl"),
)

all_granted-request :
    (item : Str) (items : List Str) (ack : Bool) (caps : Dict Bool)
    → all_granted (request item (ack, caps)).1 items ≡ all_granted caps items
all_granted-request item [] ack caps = refl
all_granted-request item (other ∷ items) ack caps =
    rw (is_granted-request item other ack caps) (rw (all_granted-request item items ack caps) refl)

request_all-granted :
    (items : List Str) (ack : Bool) (caps : Dict Bool)
    → (request_all items (ack, caps)).0 ≡ (all_granted caps items && ack)
unfolding request_all
request_all-granted [] ack caps = refl
request_all-granted (item ∷ items) ack caps =
    let (ack', caps') = request item (ack, caps) in
    request_all-granted items ack' caps'
    ∙ rw (all_granted-request item items ack caps) (
        rw (request-granted item ack caps)
          (shuffle (is_granted caps item) (all_granted caps items) ack))
  where
    shuffle : (a b c : Bool) → (b && (a && c)) ≡ ((a && b) && c)
    shuffle a b c = ground arith

request_all-is_enabled :
    (items : List Str) (ack : Bool) (caps : Dict Bool) (k : Str)
    → is_enabled (request_all items (ack, caps)).1 k ≡ (
        if str_eq k (codes "sasl") then sasl_after items (is_enabled caps k) else is_enabled caps k)
unfolding request_all
request_all-is_enabled [] ack caps k = ground arith
request_all-is_enabled (item ∷ items) ack caps k =
    let (ack', caps') = request item (ack, caps) in
    request_all-is_enabled items ack' caps' k
    ∙ ap (λ (on : Bool). if str_eq k (codes "sasl") then sasl_after items on else on)
        (request-is_enabled item ack caps k)
    ∙ elim (Bool-cases (str_eq k (codes "sasl"))) [
      | inl same ↦ rw same (
          ap
            (λ (b : Bool).
              sasl_after items (if b then (wanted (to_lower item)).1 else is_enabled caps k))
            (twice (ap (str_eq (wanted_name item)) ((str_eq_iff k (codes "sasl")).0 same))))
      | inr other ↦ ground (
        arith,
        other,
        str_eq_iff (wanted_name item) (codes "sasl"),
        str_eq_iff (wanted_name item) k,
      )
    ]
  where
    twice : {a b : Bool} → b ≡ a → (a && b) ≡ a
    twice {a} {b} e = ground (arith, e)

-- REQ with a list of names is answered with the same list, by ACK exactly if each of them can be granted.
-- Whether it is or not, sasl is then enabled as the last request for it says, or as it was if there is
-- none; every other capability is as it was, and nothing else of the client changes.
pub handle_cap_command-req :
    (hostname sub arg : Str) (args : List Str) (dc : DownstreamConn)
    → to_upper sub ≡ codes "REQ"
    → (caps : Dict Bool) × (handle_cap_command hostname sub (arg ∷ args) dc ≡ (
      ok tt,
      deliver
          (cap_reply hostname dc
            (if all_granted dc.caps (fields arg) then codes "ACK" else codes "NAK")
            arg)
          (record dc { caps = caps }),
    ))
      × ((k : Str)
          → is_enabled caps k ≡ (
              if str_eq k (codes "sasl")
              then sasl_after (fields arg) (is_enabled dc.caps k)
              else is_enabled dc.caps k))
unfolding handle_cap_command str_eq
handle_cap_command-req hostname sub arg args dc req = (
  (request_all (fields arg) (true, dc.caps)).1,
  rw req (
      runs
      ∙ ap (λ (ack : Bool). answer ack)
          (request_all-granted (fields arg) true dc.caps
            ∙ last (all_granted dc.caps (fields arg)))),
  request_all-is_enabled (fields arg) true dc.caps,
)
  where
    answer : Bool → Step DownstreamConn (Unit {0})
    answer ack = (
      ok tt,
      deliver (cap_reply hostname dc (if ack then codes "ACK" else codes "NAK") arg)
          (record dc { caps = (request_all (fields arg) (true, dc.caps)).1 }),
    )

    last : (b : Bool) → (b && true) ≡ b
    last b = ground arith

    runs :
        cap_req hostname (codes "REQ") (arg ∷ args) dc
        ≡ answer (request_all (fields arg) (true, dc.caps)).0
    runs = refl
