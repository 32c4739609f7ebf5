-- ===== src/Firewall/Again.antt =====
-- Installing the rules a second time makes no call.
use cs305_2026spring_project.Prelude.{
  ℕ, ◌≡◌, refl, sym, ap, subst, ◌∙◌, inl, inr, true, false, Bool-cases, Option, some, List, [], ◌∷◌,
  arith, codes, ◌==◌, text_eq, if◌then◌else◌, ◌>>=◌, >>=-eq-some, text_beq_iff,
}
use cs305_2026spring_project.Firewall.{
  FirewallRule, State, RuleKey, rule_key_beq, is_installed, or_star, proto_to_number,
  normalize_port, install_key, install_rule, install_on, install_rules,
}

-- Every key of the first list is in the second.
abbrev Grows : State → State → Type 0
Grows s t =
    (key : RuleKey) → is_installed key s.installed ≡ true → is_installed key t.installed ≡ true

rule_key_beq_refl : (k : RuleKey) → rule_key_beq k k ≡ true
unfolding rule_key_beq
rule_key_beq_refl k = ground (arith, text_beq_iff k.src k.src, text_beq_iff k.dst k.dst)

abbrev key_of : ℕ → FirewallRule → ℕ → ℕ → ℕ → RuleKey
key_of dpid rule p sp dp = record {
  src = or_star rule.src_ip;
  dst = or_star rule.dst_ip;
  proto_num = p;
  src_port = sp;
  dst_port = dp;
  dpid = dpid;
}

install_key-present :
    (dpid : ℕ) (rule : FirewallRule) (p sp dp : ℕ) (s : State)
    → is_installed (key_of dpid rule p sp dp) s.installed ≡ true
    → install_key dpid rule p sp dp s ≡ s
unfolding install_key
install_key-present dpid rule p sp dp s e = rw (e) refl

-- Afterwards the key is there.
install_key-has :
    (dpid : ℕ) (rule : FirewallRule) (p sp dp : ℕ) (s : State)
    → is_installed (key_of dpid rule p sp dp) (install_key dpid rule p sp dp s).installed ≡ true
unfolding install_key is_installed
install_key-has dpid rule p sp dp s =
    let key = key_of dpid rule p sp dp in
    elim (Bool-cases (is_installed key s.installed)) [
      | inl old ↦ rw (old) old
      | inr new ↦ rw (new, rule_key_beq_refl key) refl
    ]

install_key-Grows :
    (dpid : ℕ) (rule : FirewallRule) (p sp dp : ℕ) (s : State)
    → Grows s (install_key dpid rule p sp dp s)
unfolding install_key is_installed
install_key-Grows dpid rule p sp dp s key h =
    elim (Bool-cases (is_installed (key_of dpid rule p sp dp) s.installed)) [
      | inl old ↦ rw (old) h
      | inr new ↦ rw (new) (ground arith)
    ]

-- One rule: the keys grow, and where its key has stayed it is skipped.
Stays : (State → Option State) → State → State → Type 0
Stays f s u = Grows s u × ((t : State) → Grows u t → f t ≡ some t)

install_rule-allowed :
    (dpid : ℕ) (rule : FirewallRule) (s : State)
    → (rule.action == codes "deny") ≡ false
    → install_rule dpid rule s ≡ some s
unfolding install_rule
install_rule-allowed dpid rule s e = rw (e) refl

install_rule-denied :
    (dpid : ℕ) (rule : FirewallRule) (sp dp : ℕ) (s : State)
    → (rule.action == codes "deny") ≡ true
    → normalize_port rule.src_port ≡ some sp
    → normalize_port rule.dst_port ≡ some dp
    → install_rule dpid rule s ≡ some (install_key dpid rule (proto_to_number rule.proto) sp dp s)
unfolding install_rule
install_rule-denied dpid rule sp dp s e f g = rw (e, f, g) refl

-- A denied rule that is installed has two ports that are numbers.
install_rule-ports :
    (dpid : ℕ) (rule : FirewallRule) (s u : State)
    → (rule.action == codes "deny") ≡ true
    → install_rule dpid rule s ≡ some u
    → (sp : ℕ) × (dp : ℕ) × (normalize_port rule.src_port ≡ some sp)
      × (normalize_port rule.dst_port ≡ some dp)
unfolding install_rule
install_rule-ports dpid rule s u e h =
    let taken : (normalize_port rule.src_port >>= λ sp. normalize_port rule.dst_port >>= λ dp.
    some (install_key dpid rule (proto_to_number rule.proto) sp dp s))
        ≡ some u =
      subst
        (λ t.
          (if t
            then (normalize_port rule.src_port >>= λ sp. normalize_port rule.dst_port >>= λ dp.
                some (install_key dpid rule (proto_to_number rule.proto) sp dp s))
            else some s)
          ≡ some u)
        e h in
    let (sp, first, rest) = >>=-eq-some (normalize_port rule.src_port) _ taken in
    let (dp, second, last) = >>=-eq-some (normalize_port rule.dst_port) _ rest in
    (sp, dp, first, second)

install_rule-Stays :
    (dpid : ℕ) (rule : FirewallRule) (s u : State)
    → install_rule dpid rule s ≡ some u
    → Stays (install_rule dpid rule) s u
unfolding Stays
install_rule-Stays dpid rule s u e = elim (Bool-cases (rule.action == codes "deny")) [
  | inr allowed ↦
      let same : s ≡ u = cc (sym (install_rule-allowed dpid rule s allowed) ∙ e) in
      (
        (λ key h. subst (λ (v : State). is_installed key v.installed ≡ true) same h),
        λ t g. install_rule-allowed dpid rule t allowed,
      )
  | inl denied ↦
      let (sp, dp, first, second) = install_rule-ports dpid rule s u denied e in
      let p = proto_to_number rule.proto in
      let same : install_key dpid rule p sp dp s ≡ u =
        cc (sym (install_rule-denied dpid rule sp dp s denied first second) ∙ e) in
      let has : is_installed (key_of dpid rule p sp dp) u.installed ≡ true =
        subst (λ (v : State). is_installed (key_of dpid rule p sp dp) v.installed ≡ true) same
          (install_key-has dpid rule p sp dp s) in
      (
        subst (Grows s) same (install_key-Grows dpid rule p sp dp s),
        λ t g.
            install_rule-denied dpid rule sp dp t denied first second
            ∙ ap some (install_key-present dpid rule p sp dp t (g (key_of dpid rule p sp dp) has)),
      )
]

install_on-Stays :
    (dpid : ℕ) (rules : List FirewallRule) (s u : State)
    → install_on dpid rules s ≡ some u
    → Stays (install_on dpid rules) s u
unfolding install_on Stays
install_on-Stays dpid [] s u e =
    let same : s ≡ u = cc e in
    ((λ key h. subst (λ (v : State). is_installed key v.installed ≡ true) same h), λ t g. refl)
install_on-Stays dpid (rule ∷ rules) s u e =
    let (v, first, rest) = >>=-eq-some (install_rule dpid rule s) (install_on dpid rules) e in
    let (grow, again) = install_rule-Stays dpid rule s v first in
    let (grow', again') = install_on-Stays dpid rules v u rest in
    (
      λ key h. grow' key (grow key h),
      λ t g. rw (again t (λ key h. g key (grow' key h))) (again' t g),
    )

install_rules-Stays :
    (rules : List FirewallRule) (dpids : List ℕ) (s u : State)
    → install_rules rules dpids s ≡ some u
    → Stays (install_rules rules dpids) s u
unfolding install_rules Stays
install_rules-Stays rules [] s u e =
    let same : s ≡ u = cc e in
    ((λ key h. subst (λ (v : State). is_installed key v.installed ≡ true) same h), λ t g. refl)
install_rules-Stays rules (dpid ∷ dpids) s u e =
    let (v, first, rest) = >>=-eq-some (install_on dpid rules s) (install_rules rules dpids) e in
    let (grow, again) = install_on-Stays dpid rules s v first in
    let (grow', again') = install_rules-Stays rules dpids v u rest in
    (
      λ key h. grow' key (grow key h),
      λ t g. rw (again t (λ key h. g key (grow' key h))) (again' t g),
    )

-- If install_rules has run to its end on some switches, then running it again with the same rules
-- on the same switches makes no call and changes nothing.
pub install_rules_again :
    (rules : List FirewallRule) (dpids : List ℕ) (s u : State)
    → install_rules rules dpids s ≡ some u
    → install_rules rules dpids u ≡ some u
unfolding Stays
install_rules_again rules dpids s u e = (install_rules-Stays rules dpids s u e).1 u (λ key h. h)
