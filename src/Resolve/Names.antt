-- ===== src/Resolve/Names.antt =====
-- src/resolv_linux.c: the addresses of an interface. And `resolv_name_to_addr` of src/resolv.c.
use hype.Base.{ℕ, List, Option, none, some, Bool, if◌then◌else◌, take, ntohl, ◌>>=◌}

-- `snprintf` into `ifr_name`, which has sixteen bytes with the zero at its end.
unfoldable pub ifr_name : List ℕ → List ℕ
ifr_name ifname = take 15 ifname

-- `has_socket` is whether `socket` succeeds, and `hwaddr` gives `sa_data` for a name, or an error of `ioctl`:
-- `none` is the exit.
unfoldable pub resolve_ifname_to_mac : Bool → (List ℕ → Option (List ℕ)) → List ℕ → Option (List ℕ)
resolve_ifname_to_mac has_socket hwaddr ifname =
    if has_socket then (hwaddr (ifr_name ifname) >>= λ sa_data. some (take 6 sa_data)) else none

-- The address of the interface, in host order; `addr` gives it in network order.
unfoldable pub resolve_ifname_to_ip : Bool → (List ℕ → Option ℕ) → List ℕ → Option ℕ
resolve_ifname_to_ip has_socket addr ifname =
    if has_socket then (addr (ifr_name ifname) >>= λ s_addr. some (ntohl s_addr)) else none

-- The first address that `getaddrinfo` gives, in network order, or the exit.
unfoldable pub resolv_name_to_addr : (List ℕ → Option ℕ) → List ℕ → Option ℕ
resolv_name_to_addr getaddrinfo name = getaddrinfo name
