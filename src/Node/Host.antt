-- ===== src/Node/Host.antt =====
-- ros/network.go: the host name that a node gives of itself.
use rosgo.Prelude.{
  Bool, true, false, ◌||◌, List, [], ◌∷◌, Option, none, some, Bytes, codes, str_eq, if◌then◌else◌,
}
use rosgo.Node.Arguments.{has_prefix}

-- What the system tells: ROS_HOSTNAME and ROS_IP of the environment, the host name, and the addresses of
-- the interfaces that are of IP networks, each with whether it is of a loopback; `none` is an error, or a
-- variable that is not set.
pub record System : Type 0 where
  pub ros_hostname : Option Bytes
  pub ros_ip : Option Bytes
  pub os_hostname : Option Bytes
  pub interface_addrs : Option (List (Bytes × Bool))

abbrev pub fallback : Bytes × Bool
fallback = (codes "127.0.0.1", true)

-- The first address that is not of a loopback.
unfoldable pub from_interfaces : List (Bytes × Bool) → Bytes × Bool
from_interfaces [] = fallback
from_interfaces ((ip, is_loopback) ∷ addrs) =
    if is_loopback then from_interfaces addrs else (ip, false)

abbrev pub by_interfaces : Option (List (Bytes × Bool)) → Bytes × Bool
by_interfaces none = fallback
by_interfaces (some addrs) = from_interfaces addrs

abbrev pub by_hostname : Option Bytes → Option (List (Bytes × Bool)) → Bytes × Bool
by_hostname none addrs = by_interfaces addrs
by_hostname (some host) addrs =
    if str_eq host (codes "localhost") then by_interfaces addrs else (host, false)

abbrev pub by_ip : Option Bytes → Option Bytes → Option (List (Bytes × Bool)) → Bytes × Bool
by_ip (some ip) host addrs = (ip, str_eq ip (codes "::1") || has_prefix (codes "127.") ip)
by_ip none host addrs = by_hostname host addrs

-- `determineHost`: the host, and whether only this host is reached by it.
unfoldable pub determine_host : System → Bytes × Bool
determine_host s = elim s.ros_hostname [
  | some host ↦ (host, str_eq host (codes "localhost"))
  | none ↦ by_ip s.ros_ip s.os_hostname s.interface_addrs
]
