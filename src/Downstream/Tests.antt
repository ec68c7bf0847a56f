-- ===== src/Downstream/Tests.antt =====
-- Runs of the client's side, and the theorems at concrete inputs.
use soju.Prelude.{◌≡◌, refl, Bool, true, false, none, some, [], ◌∷◌, if◌then◌else◌}
use soju.Prelude.Text.{Str, codes, str_eq}
use soju.Prelude.Strings.{split_at, drop_empty, fields, to_upper, to_lower}
use soju.Prelude.Dict.{Dict, lookup}
use soju.Irc.Result.{ok, panic}
use soju.Conn.{DownstreamConn, deliver}
use soju.Samples.{bob, client}
use soju.Downstream.Names.{unmarshal_username, unmarshal_username_lem}
use soju.Downstream.Caps.{is_enabled, cap_reply, handle_cap_command}
use soju.Downstream.Caps.Granted.{handle_cap_command-req}
use soju.Downstream.Routing.{
  unmarshal_channel, upstreams, unmarshal_channel-first_with, parse_credentials,
}

unmarshal_username_lem_example :
    (unmarshal_username (codes "bob/irc.example.org") ≡ (codes "bob", codes "irc.example.org"))
    × (unmarshal_username (codes "bob/phone@irc.example.org")
        ≡ (codes "bob", codes "irc.example.org"))
    × (unmarshal_username (codes "bob") ≡ (codes "bob", []))
unmarshal_username_lem_example =
    unmarshal_username_lem (codes "bob") (codes "phone") (codes "irc.example.org") b'/' b'@'
      (refl, (refl, (refl, tt))) refl refl
      (
        refl,
        (
          refl,
          (
            refl,
            (
              refl,
              (
                refl,
                (refl, (refl, (refl, (refl, (refl, (refl, (refl, (refl, (refl, (refl, tt)))))))))),
              ),
            ),
          ),
        ),
      )

-- The request as a whole is refused, and sasl is enabled all the same.
handle_cap_command-req_example :
    (caps : Dict Bool) × (handle_cap_command
        (codes "bouncer")
        (codes "req")
        (codes "sasl foo" ∷ [])
        (client 0)
      ≡ (
        ok tt,
        deliver
            (cap_reply (codes "bouncer") (client 0) (codes "NAK") (codes "sasl foo"))
            (record (client 0) { caps = caps }),
      ))
    × ((k : Str) → is_enabled caps k ≡ (if str_eq k (codes "sasl") then true else false))
unfolding fields split_at drop_empty to_lower to_upper str_eq lookup
handle_cap_command-req_example =
    handle_cap_command-req (codes "bouncer") (codes "req") (codes "sasl foo") [] (client 0) refl

-- A client of no network, and two networks that have the channel.
abbrev roaming : DownstreamConn
roaming = record (client 0) { network = none }

unmarshal_channel-first_with_example :
    unmarshal_channel roaming
      (none ∷ some bob ∷ some (record bob { network_ref = 2 }) ∷ [])
      (codes "#a")
    ≡ ok (bob, codes "#a")
unfolding upstreams lookup str_eq
unmarshal_channel-first_with_example =
    unmarshal_channel-first_with roaming
      (none ∷ some bob ∷ some (record bob { network_ref = 2 }) ∷ []) (codes "#a") refl

-- IDENTIFY with one word.
run_identify : parse_credentials (codes "identify secret") (codes "bob") ≡ panic
unfolding parse_credentials fields split_at drop_empty to_upper str_eq
run_identify = refl
