-- ===== src/Firewall.antt =====
-- firewall.py: the rules of the firewall, and their installation on the switches. Texts are lowered
-- and stripped by ASCII, and a port that is a text is a number written in decimal digits.
pub mod Again
mod Tests
use cs305_2026spring_project.Prelude.{
  ℕ, zero, suc, ◌+◌, ◌-◌, ◌*◌, Bool, true, false, not, ◌&&◌, ◌||◌, Option, none, some, Text, List,
  [], ◌∷◌, ◌++◌, map, ltb, leb, nat_beq, if◌then◌else◌, ◌>>=◌, codes, ◌==◌, text_eq, text_beq,
}

-- A value that JSON gives for a port.
pub data Value : Type 0 where
  number : ℕ → Value
  text : Text → Value

-- `FirewallRule`
pub record FirewallRule : Type 0 where
  pub src_ip : Option Text
  pub dst_ip : Option Text
  pub proto : Option Text
  pub src_port : Option Value
  pub dst_port : Option Value
  pub action : Text

abbrev pub is_space : ℕ → Bool
is_space c = leb 9 c && leb c 13 || (leb 28 c && leb c 32)

abbrev pub lower_char : ℕ → ℕ
lower_char c = if leb 65 c && leb c 90 then c + 32 else c

unfoldable pub strip_left : Text → Text
strip_left [] = []
strip_left (c ∷ s) = let rest = strip_left s in if is_space c then rest else c ∷ s

unfoldable pub strip_right : Text → Text
strip_right [] = []
strip_right (c ∷ s) = elim (strip_right s) [
  | [] ↦ if is_space c then [] else c ∷ []
  | d ∷ t ↦ c ∷ d ∷ t
]

-- `value.strip().lower() in ["", "*", "any"]`
unfoldable pub is_any : Text → Bool
unfolding strip_left strip_right
is_any value =
    let t = map lower_char (strip_right (strip_left value)) in
    t == [] || (t == codes "*" || t == codes "any")

-- `_normalize_any`, for a text and for a port.
unfoldable pub normalize_any : Option Text → Option Text
unfolding is_any
normalize_any none = none
normalize_any (some value) = if is_any value then none else some value

unfoldable pub normalize_any_port : Option Value → Option Value
unfolding is_any
normalize_any_port none = none
normalize_any_port (some (number n)) = some (number n)
normalize_any_port (some (text t)) = if is_any t then none else some (text t)

-- `_normalize_proto`
unfoldable pub normalize_proto : Option Text → Option Text
unfolding normalize_any
normalize_proto proto = elim (normalize_any proto) [
  | none ↦ none
  | some p ↦ some (map lower_char p)
]

-- `_proto_to_number`, with os-ken's numbers of the protocols.
unfoldable pub proto_to_number : Option Text → ℕ
unfolding normalize_proto
proto_to_number proto = elim (normalize_proto proto) [
  | none ↦ 0
  | some p ↦
      if p == codes "icmp"
      then 1
      else (if p == codes "tcp" then 6 else (if p == codes "udp" then 17 else 0))
]

-- `int(value)`
unfoldable pub read_digits : ℕ → Text → Option ℕ
read_digits n [] = some n
read_digits n (c ∷ s) =
    let rest = read_digits (n * 10 + (c - 48)) s in if leb 48 c && leb c 57 then rest else none

unfoldable pub to_int : Value → Option ℕ
unfolding read_digits strip_left strip_right
to_int (number n) = some n
to_int (text t) = elim (strip_right (strip_left t)) [ [] ↦ none | c ∷ s ↦ read_digits 0 (c ∷ s) ]

-- `_normalize_port`
unfoldable pub normalize_port : Option Value → Option ℕ
unfolding normalize_any_port to_int
normalize_port value = elim (normalize_any_port value) [ none ↦ some 0 | some v ↦ to_int v ]

-- `rule_key`: an address that is absent or empty is `*`.
pub record RuleKey : Type 0 where
  pub src : Text
  pub dst : Text
  pub proto_num : ℕ
  pub src_port : ℕ
  pub dst_port : ℕ
  pub dpid : ℕ

abbrev pub or_star : Option Text → Text
or_star none = codes "*"
or_star (some []) = codes "*"
or_star (some (c ∷ s)) = c ∷ s

unfoldable pub rule_key_beq : RuleKey → RuleKey → Bool
rule_key_beq a b =
    text_beq a.src b.src
    && (text_beq a.dst b.dst
        && (nat_beq a.proto_num b.proto_num
            && (nat_beq a.src_port b.src_port
                && (nat_beq a.dst_port b.dst_port && nat_beq a.dpid b.dpid))))

-- A call of `set_flow`, with the arguments that it is given: no address is 0 with mask 0, no
-- protocol and no ports are left out.
pub record FlowCall : Type 0 where
  pub nw_src : Option Text
  pub nw_dst : Option Text
  pub nw_proto : Option ℕ
  pub tp_ports : Option (ℕ × ℕ)

abbrev pub given : Option Text → Option Text
given none = none
given (some []) = none
given (some (c ∷ s)) = some (c ∷ s)

-- The chain of tests on the protocol number.
unfoldable pub flow_of : FirewallRule → ℕ → ℕ → ℕ → FlowCall
flow_of rule proto_num src_port dst_port = record {
  nw_src = given rule.src_ip;
  nw_dst = given rule.dst_ip;
  nw_proto = if nat_beq proto_num 0 then none else some proto_num;
  tp_ports =
      if nat_beq proto_num 1 || (nat_beq proto_num 0 || (nat_beq src_port 0 && nat_beq dst_port 0))
      then none
      else some (src_port, dst_port);
}

-- `installed`, and the calls that were made, each with its switch.
pub record State : Type 0 where
  pub installed : List RuleKey
  pub calls : List (ℕ × FlowCall)

unfoldable pub is_installed : RuleKey → List RuleKey → Bool
unfolding rule_key_beq
is_installed key [] = false
is_installed key (k ∷ ks) = rule_key_beq k key || is_installed key ks

-- Behind the numbers: the test for the key, and the call.
unfoldable pub install_key : ℕ → FirewallRule → ℕ → ℕ → ℕ → State → State
unfolding is_installed flow_of
install_key dpid rule proto_num src_port dst_port s =
    let key : RuleKey = record {
      src = or_star rule.src_ip;
      dst = or_star rule.dst_ip;
      proto_num = proto_num;
      src_port = src_port;
      dst_port = dst_port;
      dpid = dpid;
    } in
    if is_installed key s.installed then s else record {
      installed = key ∷ s.installed;
      calls = s.calls ++ ((dpid, flow_of rule proto_num src_port dst_port) ∷ []);
    }

-- What the loop does for one rule; `none` where a port is no number, and `int` raises.
unfoldable pub install_rule : ℕ → FirewallRule → State → Option State
unfolding install_key normalize_port proto_to_number
install_rule dpid rule s =
    if rule.action == codes "deny"
    then (do
      src_port ← normalize_port rule.src_port
      dst_port ← normalize_port rule.dst_port
      some (install_key dpid rule (proto_to_number rule.proto) src_port dst_port s))
    else some s

-- `for rule in self.rules`
unfoldable pub install_on : ℕ → List FirewallRule → State → Option State
unfolding install_rule
install_on dpid [] s = some s
install_on dpid (rule ∷ rules) s = install_rule dpid rule s >>= install_on dpid rules

-- `install_rules(ofctls)`, on the switches' ids.
unfoldable pub install_rules : List FirewallRule → List ℕ → State → Option State
unfolding install_on
install_rules rules [] s = some s
install_rules rules (dpid ∷ dpids) s = install_on dpid rules s >>= install_rules rules dpids
