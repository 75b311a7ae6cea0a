-- ===== src/Tests/Drivers.antt =====
-- The choice of a driver, and the drivers' other calls.
use mathlib.Core.Option
use hype.Base.{◌≡◌, refl, [], ◌∷◌, some, none, true, false}
use hype.Netdev.{sock, pcap, netdev_open, netdev_drivers, driver_name, exits, nothing, captured}
use hype.Netdev.Pcap
use hype.Netdev.Pfring
use hype.Netdev.Opening.{netdev_open_sock, netdev_close_sock, closep}
use hype.Script.Load.{script_load}
use hype.Tests.Opening.{opens, opened}

-- Built without PF_RING: libpcap is the first choice, and the packet socket is found by its name.
first_driver : netdev_open (netdev_drivers false true true) none ≡ some pcap
unfolding netdev_open netdev_drivers
first_driver = refl

named_driver : netdev_open (netdev_drivers false true true) (some (driver_name sock)) ≡ some sock
unfolding netdev_open netdev_drivers driver_name
named_driver = refl

no_driver : netdev_open (netdev_drivers false false false) none ≡ none
unfolding netdev_open netdev_drivers
no_driver = refl

pcap_packet : Pcap.netdev_capture_pcap (Pcap.packet (1 ∷ [])) ≡ captured (1 ∷ [])
unfolding Pcap.netdev_capture_pcap
pcap_packet = refl

-- A result that the driver does not know ends the program with libpcap, but not with PF_RING.
pcap_other : Pcap.netdev_capture_pcap Pcap.another ≡ exits
unfolding Pcap.netdev_capture_pcap
pcap_other = refl

pfring_other : Pfring.netdev_capture_pfring Pfring.another ≡ nothing
unfolding Pfring.netdev_capture_pfring
pfring_other = refl

pcap_opens :
    Option.map Pcap.netdev_close_pcap (Pcap.netdev_open_pcap true (0 ∷ 0 ∷ []))
    ≡ some (record { is_open = false; buf = []; buf_len = 0; accepted = [] })
unfolding Pcap.netdev_close_pcap Pcap.netdev_open_pcap
pcap_opens = refl

pfring_opens :
    Option.map Pfring.netdev_close_pfring (Pfring.netdev_open_pfring true (0 ∷ 0 ∷ []))
    ≡ some (record { is_open = false; buf = []; buf_len = 0; accepted = [] })
unfolding Pfring.netdev_close_pfring Pfring.netdev_open_pfring
pfring_opens = refl

-- The descriptor is closed once.
socket_closes : netdev_close_sock opened true ≡ some (record opened { fd = none })
unfolding netdev_close_sock closep
socket_closes = refl

-- A mapping that fails has an address that is not NULL, and the opening goes on.
failed_mapping :
    Option.map (λ p. p.rx_ring) (netdev_open_sock (record opens { mapping = 18446744073709551615 }))
    ≡ some 18446744073709551615
unfolding netdev_open_sock
failed_mapping = refl

unreadable_script : script_load true 1 0 ≡ none
unfolding script_load
unreadable_script = refl
