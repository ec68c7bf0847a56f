-- ===== src/Downstream/Caps.antt =====
-- `handleCapCommand`: the negotiation of capabilities with a client.
pub mod Granted
use mathlib.Core.Option
use soju.Prelude.{
  ℕ, ◌≡◌, refl, sym, ap, ◌∙◌, Bool, true, false, not, ◌&&◌, ◌||◌, Option, none, some, List, [], ◌∷◌,
  ◌++◌, ◌==◌, ltb, leb, if◌then◌else◌, map, arith, Bool-cases, inl, inr, length, get_or,
  append_assoc,
}
use soju.Prelude.Text.{Str, codes, str_eq, str_eq_iff, str_eq_refl}
use soju.Prelude.Strings.{fields, to_upper, to_lower, join}
use soju.Prelude.Dict.{Dict, lookup, insert, lookup-insert}
use soju.Prelude.Int.{ℤ, parse_int, nearest_int}
use soju.Irc.{Message, Command, Reply}
use soju.Irc.Result.{Result, ok, err, panic, irc_error, bad_number, Step}
use soju.Conn.{DownstreamConn, deliver, server_prefix}

-- `dc.caps[name]`
abbrev pub is_enabled : Dict Bool → Str → Bool
is_enabled caps name = elim (lookup name caps) [ none ↦ false | some on ↦ on ]

-- A name that is requested, without its dash, and whether it is to be enabled.
abbrev pub wanted : Str → Str × Bool
wanted [] = ([], true)
wanted (c ∷ s) = if c == b'-' then (s, false) else (c ∷ s, true)

-- A step of the loop of REQ.
unfoldable pub request : Str → Bool × Dict Bool → Bool × Dict Bool
request item (ack, caps) =
    let (name, enable) = wanted (to_lower item) in
    if not enable && not (is_enabled caps name) || enable && is_enabled caps name
    then (ack, caps)
    else if str_eq name (codes "sasl")
    then (ack, insert name enable caps)
    else (false, caps)

unfoldable pub request_all : List Str → Bool × Dict Bool → Bool × Dict Bool
request_all [] st = st
request_all (item ∷ items) st = request_all items (request item st)

abbrev pub reply_to : DownstreamConn → Str
reply_to dc = if not dc.registered then codes "*" else dc.nick

abbrev pub cap_reply : Str → DownstreamConn → Str → Str → Message
cap_reply hostname dc sub text = record {
  prefix = some (server_prefix hostname);
  command = Command.capability;
  params = reply_to dc ∷ sub ∷ text ∷ [];
}

abbrev pub invalid_cap : DownstreamConn → Str → Str → Message
invalid_cap dc cmd text = record {
  prefix = none;
  command = Command.err_invalidcapcmd;
  params = reply_to dc ∷ cmd ∷ text ∷ [];
}

abbrev pub offered : ℤ → Str
offered (ℤ.pos n) = if leb 302 n then codes "sasl=PLAIN" else codes "sasl"
offered (ℤ.negsuc n) = codes "sasl"

-- LS, with the version that is in force by then.
abbrev pub list_offered : Str → ℤ → DownstreamConn → DownstreamConn
list_offered hostname version dc =
    let sent =
      deliver (cap_reply hostname dc (codes "LS") (offered version))
        (record dc { cap_version = version }) in
    record sent { negociating_caps = if not dc.registered then true else dc.negociating_caps }

-- The version is set even where `Atoi` returns an error.
unfoldable pub cap_ls : Str → List Str → DownstreamConn → Step DownstreamConn (Unit {0})
cap_ls hostname [] dc = (ok tt, list_offered hostname dc.cap_version dc)
cap_ls hostname (arg ∷ args) dc = elim (parse_int arg) [
  | none ↦ (err bad_number, record dc { cap_version = nearest_int arg })
  | some version ↦ (ok tt, list_offered hostname version dc)
]

unfoldable pub cap_list : Str → DownstreamConn → DownstreamConn
cap_list hostname dc =
    deliver
      (cap_reply hostname dc (codes "LIST") (join (map (λ (entry : Str × Bool). entry.0) dc.caps)))
      dc

unfoldable pub cap_req : Str → Str → List Str → DownstreamConn → Step DownstreamConn (Unit {0})
unfolding request_all
cap_req hostname cmd [] dc =
    (err (irc_error (invalid_cap dc cmd (codes "Missing argument in CAP REQ command"))), dc)
cap_req hostname cmd (arg ∷ args) dc =
    let (ack, caps) = request_all (fields arg) (true, dc.caps) in
    (
      ok tt,
      deliver (cap_reply hostname dc (if ack then codes "ACK" else codes "NAK") arg)
          (record dc { caps = caps }),
    )

-- `sub` is the subcommand as the client wrote it.
unfoldable pub handle_cap_command :
    Str → Str → List Str → DownstreamConn → Step DownstreamConn (Unit {0})
unfolding cap_ls cap_list cap_req
handle_cap_command hostname sub args dc =
    let cmd = to_upper sub in
    if str_eq cmd (codes "LS")
    then cap_ls hostname args dc
    else if str_eq cmd (codes "LIST")
    then (ok tt, cap_list hostname dc)
    else if str_eq cmd (codes "REQ")
    then cap_req hostname cmd args dc
    else if str_eq cmd (codes "END")
    then (ok tt, record dc { negociating_caps = false })
    else (err (irc_error (invalid_cap dc cmd (codes "Unknown CAP command"))), dc)

-- Whether a request can be granted: it is for sasl, or it asks for what is so already.
abbrev pub is_granted : Dict Bool → Str → Bool
is_granted caps item =
    let (name, enable) = wanted (to_lower item) in
    str_eq name (codes "sasl")
    || (if enable then is_enabled caps name else not (is_enabled caps name))

abbrev pub all_granted : Dict Bool → List Str → Bool
all_granted caps [] = true
all_granted caps (item ∷ items) = is_granted caps item && all_granted caps items

-- Whether sasl is enabled at the end of the requests: as the last one for it says.
abbrev pub sasl_after : List Str → Bool → Bool
sasl_after [] on = on
sasl_after (item ∷ items) on =
    let (name, enable) = wanted (to_lower item) in
    sasl_after items (if str_eq name (codes "sasl") then enable else on)
