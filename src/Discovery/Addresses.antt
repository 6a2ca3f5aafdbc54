-- ===== src/Discovery/Addresses.antt =====
-- src-tauri/src/transport/discovery.rs: how good an address and an interface are, and where
-- announcements go. `Ipv4Addr` is that of the standard library.
use lan_bridge.Base.{
  ℕ, String, Bool, true, false, ◌||◌, ◌&&◌, not, Option, none, some, List, [], ◌∷◌, string_eq,
  nat_eq, any, if◌then◌else◌, map, eqb, leb,
}
use lan_bridge.Base.Int.{ℤ, pos, negsuc, ◌+ℤ◌}
use lan_bridge.Base.Text.{split, lower_contains, is_empty}
use lan_bridge.Base.Sort.{sort_by, by_key_down}
use lan_bridge.Base.Decimal.{parse_digits}
use Prim.Native.Char.{code}

pub record Ipv4Addr : Type 0 where
  pub octet_0 : ℕ
  pub octet_1 : ℕ
  pub octet_2 : ℕ
  pub octet_3 : ℕ

-- An octet has one to three digits, no zero in front and at most the value 255.
abbrev small_octet : Option ℕ → Option ℕ
small_octet none = none
small_octet (some n) = if leb n 255 then some n else none

abbrev has_leading_zero : String → Bool
has_leading_zero String.[] = false
has_leading_zero (String.◌∷◌ c String.[]) = false
has_leading_zero (String.◌∷◌ c (String.◌∷◌ d s)) = eqb (code c) b'0'

abbrev is_long : String → Bool
is_long (String.◌∷◌ a (String.◌∷◌ b (String.◌∷◌ c (String.◌∷◌ d s)))) = true
is_long _ = false

unfoldable pub parse_octet : String → Option ℕ
parse_octet s =
    if is_empty s || (has_leading_zero s || is_long s) then none else small_octet (parse_digits 0 s)

abbrev address_of_octets : List (Option ℕ) → Option Ipv4Addr
address_of_octets (some a ∷ some b ∷ some c ∷ some d ∷ []) =
    some (record { octet_0 = a; octet_1 = b; octet_2 = c; octet_3 = d })
address_of_octets _ = none

-- `text.parse::<Ipv4Addr>()`
unfoldable pub parse_ipv4 : String → Option Ipv4Addr
parse_ipv4 text = address_of_octets (map parse_octet (split b'.' text))

unfoldable pub is_loopback : Ipv4Addr → Bool
is_loopback a = eqb a.octet_0 127

unfoldable pub is_link_local : Ipv4Addr → Bool
is_link_local a = eqb a.octet_0 169 && eqb a.octet_1 254

unfoldable pub is_unspecified : Ipv4Addr → Bool
is_unspecified a = eqb a.octet_0 0 && (eqb a.octet_1 0 && (eqb a.octet_2 0 && eqb a.octet_3 0))

unfoldable pub is_private : Ipv4Addr → Bool
is_private a =
    eqb a.octet_0 10
    || (eqb a.octet_0 172 && (leb 16 a.octet_1 && leb a.octet_1 31)
        || eqb a.octet_0 192 && eqb a.octet_1 168)

abbrev class_score : Ipv4Addr → ℤ
class_score a =
    if is_loopback a || (is_link_local a || is_unspecified a)
    then negsuc 99
    else if is_private a
    then pos 100
    else pos 10

abbrev tunnel_words : List String
tunnel_words = "vpn" ∷ "tun" ∷ "tap" ∷ "utun" ∷ "virtual" ∷ "hyper-v" ∷ "vmware" ∷ []

abbrev is_tunnel : String → Bool
is_tunnel name = any (lower_contains name) tunnel_words

abbrev ip_score : Option Ipv4Addr → ℤ
ip_score none = pos 0
ip_score (some a) = class_score a

abbrev penalty_of : Option String → ℤ
penalty_of none = pos 0
penalty_of (some name) = if is_tunnel name then negsuc 39 else pos 0

-- The score of an address by its text and its interface.
unfoldable pub address_score_of : String → Option String → ℤ
address_score_of ip interface_name = ip_score (parse_ipv4 ip) +ℤ penalty_of interface_name

pub record DiscoveryInterface : Type 0 where
  pub name : Option String
  pub ip : Ipv4Addr

unfoldable pub looks_like_virtual_or_vpn : String → Bool
looks_like_virtual_or_vpn name = is_tunnel name || lower_contains name "wsl"

abbrev interface_penalty : Option String → ℤ
interface_penalty none = pos 0
interface_penalty (some name) = if looks_like_virtual_or_vpn name then negsuc 39 else pos 0

unfoldable pub interface_score : DiscoveryInterface → ℤ
interface_score i = (if is_private i.ip then pos 100 else pos 10) +ℤ interface_penalty i.name

unfoldable pub sorted_discovery_interfaces : List DiscoveryInterface → List DiscoveryInterface
sorted_discovery_interfaces interfaces = sort_by (by_key_down interface_score) interfaces

-- What the system lists as interfaces with an IPv4 address, less those that reach no other device.
unfoldable pub local_ipv4_interfaces : List (String × Ipv4Addr) → List DiscoveryInterface
local_ipv4_interfaces [] = []
local_ipv4_interfaces ((name, ip) ∷ rest) =
    let others = local_ipv4_interfaces rest in
    if not (is_loopback ip) && (not (is_link_local ip) && not (is_unspecified ip))
    then record { name = some name; ip = ip } ∷ others
    else others

abbrev pub broadcast : Ipv4Addr
broadcast = record { octet_0 = 255; octet_1 = 255; octet_2 = 255; octet_3 = 255 }

unfoldable pub class_c_broadcast : Ipv4Addr → Option Ipv4Addr
class_c_broadcast ip =
    if not (is_private ip) || is_unspecified ip then none else some (record ip { octet_3 = 255 })

abbrev same_ip : Ipv4Addr → Ipv4Addr → Bool
same_ip a b =
    eqb a.octet_0 b.octet_0
    && (eqb a.octet_1 b.octet_1 && (eqb a.octet_2 b.octet_2 && eqb a.octet_3 b.octet_3))

-- Each address once, in the order of the list.
unfoldable pub distinct : List Ipv4Addr → List Ipv4Addr → List Ipv4Addr
distinct seen [] = []
distinct seen (ip ∷ ips) =
    let again = distinct seen ips in
    let fresh = distinct (ip ∷ seen) ips in if any (same_ip ip) seen then again else ip ∷ fresh

abbrev or_broadcast : Option Ipv4Addr → Ipv4Addr
or_broadcast none = broadcast
or_broadcast (some ip) = ip

-- The destinations, each with the port 53530.
unfoldable pub announce_destinations : Ipv4Addr → Ipv4Addr → List Ipv4Addr
announce_destinations multicast_addr interface_ip =
    distinct [] (multicast_addr ∷ broadcast ∷ or_broadcast (class_c_broadcast interface_ip) ∷ [])
