-- ===== src/Firewall/Tests.antt =====
-- The theorem on the firewall, at a concrete list of rules.
use cs305_2026spring_project.Prelude.{◌≡◌, refl, none, some, [], ◌∷◌, codes, text_beq}
use cs305_2026spring_project.Firewall.{
  FirewallRule, text, State, install_rules, install_on, install_rule, install_key, normalize_port,
  normalize_any_port, to_int, read_digits, strip_left, strip_right, is_any, proto_to_number,
  normalize_proto, normalize_any, is_installed, rule_key_beq, flow_of,
}
use cs305_2026spring_project.Firewall.Again.{install_rules_again}

abbrev web_rule : FirewallRule
web_rule = record {
  src_ip = some (codes "10.0.0.1");
  dst_ip = none;
  proto = some (codes "TCP");
  src_port = none;
  dst_port = some (text (codes "80"));
  action = codes "deny";
}

abbrev before : State
before = record { installed = []; calls = [] }

abbrev after : State
after = record {
  installed =
      record {
        src = codes "10.0.0.1";
        dst = codes "*";
        proto_num = 6;
        src_port = 0;
        dst_port = 80;
        dpid = 1;
      }
      ∷ [];
  calls =
      (
        1,
        record {
          nw_src = some (codes "10.0.0.1");
          nw_dst = none;
          nw_proto = some 6;
          tp_ports = some (0, 80);
        },
      )
      ∷ [];
}

web-installed : install_rules (web_rule ∷ []) (1 ∷ []) before ≡ some after
unfolding install_rules install_on install_rule install_key normalize_port normalize_any_port to_int
    read_digits strip_left strip_right is_any proto_to_number normalize_proto normalize_any
    is_installed rule_key_beq flow_of text_beq
web-installed = refl

install_rules_again_example : install_rules (web_rule ∷ []) (1 ∷ []) after ≡ some after
install_rules_again_example =
    install_rules_again (web_rule ∷ []) (1 ∷ []) before after web-installed
