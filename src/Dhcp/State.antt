-- ===== src/Dhcp/State.antt =====
-- dhcp.py: the class variables of `DHCPServer` as a record, with `DNSServer`'s records, the clock
-- that `time.time()` reads, and what was sent. Times count in whole ticks.
use cs305_2026spring_project.Prelude.{ℕ, Bool, Bytes, Text, List, [], ◌∷◌, ◌++◌, codes}
use cs305_2026spring_project.Prelude.Table.{Dict}
use cs305_2026spring_project.Dns.Records.{Records}

-- `LEASE_PROBING` is declared in the source and never used.
pub data LeaseState : Type 0 where
  probing offered allocated released conflicted : LeaseState

pub record Lease : Type 0 where
  pub ip : Text
  pub assigned_at : ℕ
  pub expires_at : ℕ
  pub state : LeaseState

-- The class constants. `first` and `last` are `_ip_to_int` of `start_ip` and `end_ip`.
pub record Pool : Type 0 where
  pub first : ℕ
  pub last : ℕ
  pub lease_time : ℕ
  pub conflict_ttl : ℕ
  pub netmask : Text
  pub dns_ip : Text
  pub server_ip : Text

abbrev pub default_pool : Pool
default_pool = record {
  first = 0xc0a80102;
  last = 0xc0a80164;
  lease_time = 60;
  conflict_ttl = 300;
  netmask = codes "255.255.255.0";
  dns_ip = codes "8.8.8.8";
  server_ip = codes "192.168.1.1";
}

-- A DHCP message in reply, with the fields that the server sets.
pub record Reply : Type 0 where
  pub options : List (ℕ × Bytes)
  pub chaddr : Bytes
  pub xid : ℕ
  pub yiaddr : Text
  pub siaddr : Text
  pub ip_dst : Text

-- A packet that is sent: an ARP request from a switch, on all ports, or a reply from a port.
pub data Sent : Type 0 where
  arp_request : ℕ → Text → Sent
  dhcp_reply : ℕ → ℕ → Reply → Sent

-- A switch is its datapath id.
pub record State : Type 0 where
  pub mac_to_lease : Dict Bytes Lease
  pub ip_to_mac : Dict Text Bytes
  pub mac_to_hostname : Dict Bytes Text
  pub all_datapaths : List ℕ
  pub probes : Dict Text Bool
  pub conflict_ips : Dict Text ℕ
  pub dns : Records
  pub clock : ℕ
  pub outbox : List Sent

abbrev pub emit : Sent → State → State
emit p s = record s { outbox = s.outbox ++ (p ∷ []) }
