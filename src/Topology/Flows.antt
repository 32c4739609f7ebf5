-- ===== src/Topology/Flows.antt =====
-- The flows towards the hosts that `_install_host_flows` of controller.py sets, with nat.py's
-- `_ip_in_network` and `_dhcp_network`. An address that does not parse raises.
use Prim.Native.Nat.{bit_and}
use cs305_2026spring_project.Prelude.{
  ℕ, zero, suc, ◌+◌, ◌-◌, ◌*◌, ◌/◌, ◌%◌, ◌^◌, Bool, true, false, not, ◌&&◌, if◌then◌else◌, Option,
  none, some, List, [], ◌∷◌, ◌++◌, Text, truthy, nat_eq, text_eq, ◌==◌, ◌>>=◌,
}
use cs305_2026spring_project.Prelude.Table.{Dict, contains}
use cs305_2026spring_project.Codec.Inet.{ip_to_int, int_to_ip}
use cs305_2026spring_project.Routing.Path.{get_next_hop}
use cs305_2026spring_project.Topology.Print.{print_topology}
use cs305_2026spring_project.Topology.State.{Host, Controller, network}

-- `DHCPConfig`, `NATConfig` and `DNSConfig`, as far as the routing reads them.
pub record Addresses : Type 0 where
  pub start_ip : Text
  pub netmask : Text
  pub external_ip : Text
  pub controller_ip : Text

-- `bin(mask).count('1')`, of a number of `width` digits.
unfoldable pub ones : ℕ → ℕ → ℕ
ones zero n = 0
ones (suc width) n = n % 2 + ones width (n / 2)

-- `_ip_in_network(ip, network, prefix)`
unfoldable pub ip_in_network : Text → Text → ℕ → Option Bool
ip_in_network ip net prefix = do
  ip_int ← ip_to_int ip
  net_int ← ip_to_int net
  let mask = 4294967295 * 2 ^ (32 - prefix) % 4294967296
  some (bit_and ip_int mask == bit_and net_int mask)

-- `_dhcp_network()`: the network's address and the length of its prefix.
unfoldable pub dhcp_network : Addresses → Option (Text × ℕ)
dhcp_network a = do
  start ← ip_to_int a.start_ip
  mask ← ip_to_int a.netmask
  some (int_to_ip (bit_and start mask), ones 32 mask)

-- `any(_ip_in_network(...) for info in self.hosts.values())`, up to the first that is.
unfoldable pub any_in : Text → ℕ → Dict Text Host → Option Bool
any_in net prefix [] = some false
any_in net prefix ((mac, h) ∷ hosts) = do
  inside ← ip_in_network h.ip net prefix
  let later = any_in net prefix hosts
  if inside then some true else later

-- `host_is_external`
unfoldable pub is_external : Addresses → Text → ℕ → Bool → Host → Option Bool
is_external a net prefix any h =
    let test = ip_in_network h.ip net prefix >>= λ inside.
    some (not inside && not (h.ip == a.external_ip)) in
    if any && truthy h.ip then test else some false

-- A flow that `set_flow` is called with: the switch, the type of frame, the host and the port. Its
-- priority is 10 and its cookie 0x10.
pub record Flow : Type 0 where
  pub at_switch : ℕ
  pub dl_type : ℕ
  pub dl_dst : Text
  pub out_port : ℕ

abbrev pub ip_type : ℕ
ip_type = 0x0800

abbrev pub arp_type : ℕ
arp_type = 0x0806

abbrev pub two_flows : ℕ → Text → ℕ → List Flow
two_flows sw mac port =
    record { at_switch = sw; dl_type = ip_type; dl_dst = mac; out_port = port }
    ∷ record { at_switch = sw; dl_type = arp_type; dl_dst = mac; out_port = port }
    ∷ []

-- `if ofctl`
unfoldable pub set_flows : Controller → ℕ → Text → ℕ → List Flow
set_flows c sw mac port = if contains sw c.ofctls then two_flows sw mac port else []

-- `if port is not None`
unfoldable pub flows_by : Controller → ℕ → Text → Option ℕ → List Flow
flows_by c sw mac none = []
flows_by c sw mac (some port) = set_flows c sw mac port

-- The flows of one switch towards one host that is not external.
unfoldable pub switch_flows : ℕ → Controller → Text → Host → ℕ → Option (List Flow)
switch_flows fuel c mac h sw =
    let routed =
      get_next_hop fuel (network c) sw h.dpid >>= λ port. some (flows_by c sw mac port) in
    if sw == h.dpid then some (set_flows c sw mac h.port) else routed

-- The loop over self.switches.
unfoldable pub host_flows : ℕ → Controller → Text → Host → List ℕ → Option (List Flow)
host_flows fuel c mac h [] = some []
host_flows fuel c mac h (sw ∷ sws) = do
  flows ← switch_flows fuel c mac h sw
  more ← host_flows fuel c mac h sws
  some (flows ++ more)

-- The loop over self.hosts.
unfoldable pub all_flows :
    ℕ → Addresses → Text → ℕ → Bool → Controller → Dict Text Host → Option (List Flow)
all_flows fuel a net prefix any c [] = some []
all_flows fuel a net prefix any c ((mac, h) ∷ hosts) = do
  external ← is_external a net prefix any h
  let own = host_flows fuel c mac h (network c).switches
  flows ← (if external then some [] else own)
  more ← all_flows fuel a net prefix any c hosts
  some (flows ++ more)

-- `_install_host_flows`
unfoldable pub install_host_flows : ℕ → Addresses → Controller → Option (List Flow)
install_host_flows fuel a c = do
  printed ← print_topology fuel c
  (net, prefix) ← dhcp_network a
  any ← any_in net prefix c.hosts
  all_flows fuel a net prefix any c c.hosts
