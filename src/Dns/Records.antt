-- ===== src/Dns/Records.antt =====
-- dns_server.py, `DNSServer.add_record` and `remove_record`: the class's two dicts as a record.
pub mod Agree
pub mod Lookup
use cs305_2026spring_project.Prelude.{
  Bool, true, false, Option, none, some, [], Text, truthy, ◌==◌, ◌&&◌, not, if◌then◌else◌, text_eq,
}
use cs305_2026spring_project.Prelude.Table.{Dict, lookup, insert, erase}

pub record Records : Type 0 where
  pub forward : Dict Text Text
  pub backward : Dict Text Text

abbrev pub empty : Records
empty = record { forward = []; backward = [] }

-- `d.get(k) == v`
unfoldable pub maps_to : Dict Text Text → Text → Text → Bool
maps_to d k v = elim (lookup k d) [ none ↦ false | some w ↦ w == v ]

-- `if old_ip and old_ip != ip and cls._ip_to_hostname.get(old_ip) == hostname`
unfoldable pub drop_old : Text → Text → Option Text → Dict Text Text → Dict Text Text
drop_old hostname ip none d = d
drop_old hostname ip (some old_ip) d =
    if truthy old_ip && (not (old_ip == ip) && maps_to d old_ip hostname) then erase old_ip d else d

unfoldable pub add_record : Text → Text → Records → Records
unfolding drop_old maps_to
add_record hostname ip r =
    if truthy hostname && truthy ip
    then record {
      forward = insert hostname ip r.forward;
      backward = insert ip hostname (drop_old hostname ip (lookup hostname r.forward) r.backward);
    }
    else r

-- The branch for a known hostname: `ip = cls._records.pop(hostname)`.
unfoldable pub remove_hostname : Text → Text → Records → Records
remove_hostname hostname ip r = record {
  forward = erase hostname r.forward;
  backward = if maps_to r.backward ip hostname then erase ip r.backward else r.backward;
}

-- The branch for a known address: `hostname = cls._ip_to_hostname.pop(ip)`.
unfoldable pub remove_address : Text → Text → Records → Records
remove_address ip hostname r = record {
  forward = if maps_to r.forward hostname ip then erase hostname r.forward else r.forward;
  backward = erase ip r.backward;
}

-- `elif ip and ip in cls._ip_to_hostname`
unfoldable pub remove_by_ip : Option Text → Records → Records
unfolding remove_address maps_to
remove_by_ip none r = r
remove_by_ip (some ip) r =
    if truthy ip
    then elim (lookup ip r.backward) [ none ↦ r | some hostname ↦ remove_address ip hostname r ]
    else r

-- `remove_record(hostname=None, ip=None)`
unfoldable pub remove_record : Option Text → Option Text → Records → Records
unfolding remove_by_ip remove_hostname
remove_record none ip r = remove_by_ip ip r
remove_record (some hostname) ip r =
    if truthy hostname
    then elim (lookup hostname r.forward) [
      | none ↦ remove_by_ip ip r
      | some old ↦ remove_hostname hostname old r
    ]
    else remove_by_ip ip r
