-- ===== src/Tests/Scans.antt =====
-- Discovery (src/discovery/mod.rs), at fixed inputs.
use parsip.Base.{ℕ, ◌≡◌, ◌≢◌, refl, List, ◌∷◌, ◌++◌, none, some, arith}
use parsip.Text.{text}
use parsip.Control.{SocketAddr, v4}
use parsip.Discovery.{Node, handle_datagram, discovery_port}
use parsip.Discovery.Exchange.{IsNode, request_of, response_of, report, handle_datagram-exchange}
use parsip.Discovery.Broadcast.{collect_broadcast_addrs}
use parsip.Discovery.Broadcast.Targets.{IsTargets, collect_broadcast_addrs-IsTargets}
use parsip.Tests.Samples.{repeat}

abbrev plain : List ℕ → List ℕ
plain bytes = bytes

abbrev carol : Node
carol = record {
  tcp_listen_port = 9000;
  my_id = record { bytes = repeat 32 3 };
  my_nickname = text "carol";
}

abbrev dave : Node
dave = record {
  tcp_listen_port = 9001;
  my_id = record { bytes = repeat 32 4 };
  my_nickname = text "dave";
}

abbrev at : SocketAddr
at = record { ip = v4 192 168 0 7; port = 40000 }

carol-IsNode : IsNode carol
carol-IsNode = record { port_u16 = omega arith; id_array = refl }

dave-IsNode : IsNode dave
dave-IsNode = record { port_u16 = omega arith; id_array = refl }

differ : carol.my_id ≢ dave.my_id
differ = λ e. ground (arith, e)

handle_datagram-exchange_example :
    (handle_datagram plain dave (request_of carol) at ≡ (
      some (response_of dave, record at { port = discovery_port }),
      some (report plain carol at),
    ))
    × (handle_datagram plain carol (response_of dave) at ≡ (none, some (report plain dave at)))
    × (handle_datagram plain carol (request_of carol) at ≡ (none, none))
    × (handle_datagram plain dave (response_of dave) at ≡ (none, none))
handle_datagram-exchange_example =
    handle_datagram-exchange plain carol dave at at carol-IsNode dave-IsNode differ

-- A file of the kernel with one address.
abbrev tree : List ℕ
tree = text "|-- 192.168.0.7" ++ (10 ∷ text "LOCAL")

collect_broadcast_addrs-IsTargets_example :
    IsTargets (collect_broadcast_addrs (some tree) (some (v4 192 168 0 7)))
collect_broadcast_addrs-IsTargets_example =
    collect_broadcast_addrs-IsTargets (some tree) (some (v4 192 168 0 7))
