-- ===== src/Nat/Reachable.antt =====
-- The tables that the packets and the garbage collector of `NATTable` reach from the empty one.
use cs305_2026spring_project.Prelude.{
  ℕ, ◌≡◌, ◌+◌, subst, Option, none, some, [], Bytes, nat_eq, text_eq,
}
use cs305_2026spring_project.Prelude.Table.{lookup}
use cs305_2026spring_project.Nat.Table.{Table, key_eq}
use cs305_2026spring_project.Nat.Track.{Timeouts, gc_round}
use cs305_2026spring_project.Nat.Packet.{parse_eth_ip}
use cs305_2026spring_project.Nat.Handler.{Config, handle_outbound, handle_inbound}
use cs305_2026spring_project.Nat.Index.{IsIndexed, gc_round-IsIndexed}
use cs305_2026spring_project.Nat.Kept.{Kept, outbound_from-Kept, inbound_from-IsIndexed}

-- `_connections = {}`, `_port_index = {}`, `_next_port = 1024`.
abbrev pub empty_table : Table
empty_table = record { connections = []; port_index = []; next_port = 1024; clock = 0 }

-- A packet that is handled, in either direction, a round of the garbage collector, or the clock that
-- goes on.
pub data Step : Table → Table → Type 0 where
  outbound :
      (fuel : ℕ) (config : Config) (raw dst_mac : Bytes) (sent : Option Bytes) (t t' : Table)
      → handle_outbound fuel config raw dst_mac t ≡ some (sent, t')
      → Step t t'
  inbound : (config : Config) (raw : Bytes) (t : Table) → Step t (handle_inbound config raw t).1
  collect : (timeouts : Timeouts) (t : Table) → Step t (gc_round timeouts t)
  tick : (n : ℕ) (t : Table) → Step t (record t { clock = t.clock + n })

pub data Reachable : Table → Type 0 where
  start : Reachable empty_table
  step : (t t' : Table) → Reachable t → Step t t' → Reachable t'

Step-IsIndexed : (t t' : Table) → Step t t' → IsIndexed t → IsIndexed t'
unfolding Kept handle_outbound handle_inbound
Step-IsIndexed t _ (outbound fuel config raw dst_mac sent _ t' e) h =
    subst Kept e (outbound_from-Kept fuel config raw dst_mac t (parse_eth_ip raw) h)
Step-IsIndexed t _ (inbound config raw _) h =
    inbound_from-IsIndexed config raw t (parse_eth_ip raw) h
Step-IsIndexed t _ (collect timeouts _) h = gc_round-IsIndexed timeouts t h
Step-IsIndexed t _ (tick n _) h = h

none_ne {ℓ} : {A : Type ℓ} {x : A} → ¬ (none ≡ some x)
none_ne e = cc

-- In every table reachable from the empty one by packets that handle_outbound and handle_inbound
-- handle, rounds of the garbage collector and the clock, every port of the index leads to a
-- connection that is translated to that port.
pub reachable-IsIndexed : (t : Table) → Reachable t → IsIndexed t
unfolding lookup
reachable-IsIndexed _ start = λ port key found. absurd (none_ne found)
reachable-IsIndexed _ (step t t' r s) = Step-IsIndexed t t' s (reachable-IsIndexed t r)
