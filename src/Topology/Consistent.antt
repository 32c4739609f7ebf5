-- ===== src/Topology/Consistent.antt =====
-- What the event handlers of ControllerApp, controller.py, keep of the view of the network.
use mathlib.Core.List.{Memᴰ}
use mathlib.Core.List.Memᴰ
use cs305_2026spring_project.Prelude.{
  ℕ, ◌≡◌, refl, sym, ◌∙◌, subst, ◌≢◌, inl, inr, Bool, true, false, if◌then◌else◌, Option, none,
  some, List, [], ◌∷◌, Text, nat_eq, text_eq, ==_iff, Bool-cases, arith,
}
use cs305_2026spring_project.Prelude.Table.{Dict, lookup, erase, lookup-erase, lookup-cons}
use cs305_2026spring_project.Topology.State.{Host, Link, Controller, add_links}
use cs305_2026spring_project.Topology.Events.{select, remove_host, remove_hosts, macs_of}

-- The switch is a key of self.switches.
abbrev pub Registered : ℕ → Controller → Type 0
Registered dpid c = (datapath : ℕ) × (lookup dpid c.switches ≡ some datapath)

-- Every link and host is at registered switches.
pub record IsPlaced (c : Controller) : Type 0 where
  pub joined : (l : Link) → Memᴰ l c.links → Registered l.src_dpid c × Registered l.dst_dpid c
  pub housed : (mac : Text) (h : Host) → lookup mac c.hosts ≡ some h → Registered h.dpid c

-- The adjacency is that of the links.
abbrev pub IsCurrent : Controller → Type 0
IsCurrent c = c.adjacency ≡ add_links c.links []

pub select_cases {ℓ} :
    {A : Type ℓ} (keep : A → Bool) (xs : List A) {x : A}
    → Memᴰ x (select keep xs)
    → Memᴰ x xs × (keep x ≡ true)
unfolding select
select_cases keep [] m = elim m [ ]
select_cases keep (y ∷ xs) {x} m = elim (Bool-cases (keep y)) [
  | inl kept ↦ elim (Memᴰ.cases_cons (subst (Memᴰ x) (rw kept refl) m)) [
    | inl same ↦ (Memᴰ.head same, subst (λ z. keep z ≡ true) (sym same) kept)
    | inr later ↦ let (m', k) = select_cases keep xs later in (Memᴰ.tail m', k)
  ]
  | inr gone ↦
      let (m', k) = select_cases keep xs (subst (Memᴰ x) (rw gone refl) m) in (Memᴰ.tail m', k)
]

after :
    (b : Bool) (m : Text) {x : Text} {ms : List Text}
    → Memᴰ x ms
    → Memᴰ x (if b then m ∷ ms else ms)
after true m h = Memᴰ.tail h
after false m h = h

pub macs_of-Memᴰ :
    (gone : Host → Bool) (hosts : Dict Text Host) (mac : Text) (h : Host)
    → lookup mac hosts ≡ some h
    → gone h ≡ true
    → Memᴰ mac (macs_of gone hosts)
unfolding macs_of lookup
macs_of-Memᴰ gone [] mac h e g = cc
macs_of-Memᴰ gone ((m, host) ∷ hosts) mac h e g = elim (lookup-cons mac m host hosts e) [
  | inl (same, found) ↦ rw (subst (λ x. gone x ≡ true) (sym found) g) (Memᴰ.head (sym same))
  | inr (other, later) ↦ after (gone host) m (macs_of-Memᴰ gone hosts mac h later g)
]

erased : (mac : Text) (hosts : Dict Text Host) → lookup mac (erase mac hosts) ≡ none
erased mac hosts = ground (arith, lookup-erase mac mac hosts, ==_iff mac mac)

unerased :
    (m mac : Text) (hosts : Dict Text Host) {h : Host}
    → lookup m (erase mac hosts) ≡ some h
    → lookup m hosts ≡ some h
unerased m mac hosts e = ground (arith, lookup-erase m mac hosts)

none-some : {o : Option Host} {h : Host} → o ≡ none → o ≢ some h
none-some e e' = cc

module _ (purge : Text → Dict (ℕ × ℕ) Text → Dict (ℕ × ℕ) Text) where
  -- What the removal of a host leaves alone.
  abbrev pub Alike : Controller → Controller → Type 0
  Alike c c' =
      (c'.switches ≡ c.switches)
      × (c'.links ≡ c.links)
      × (c'.adjacency ≡ c.adjacency)
      × ((mac : Text) (h : Host) → lookup mac c'.hosts ≡ some h → lookup mac c.hosts ≡ some h)

  remove_host-gone :
      (mac : Text) (c : Controller) (o : Option Host)
      → lookup mac c.hosts ≡ o
      → (lookup mac (remove_host purge mac c o).hosts ≡ none) × Alike c (remove_host purge mac c o)
  unfolding remove_host
  remove_host-gone mac c none e = (e, (refl, refl, refl, λ m h e'. e'))
  remove_host-gone mac c (some host) e =
      (erased mac c.hosts, (refl, refl, refl, λ m h e'. unerased m mac c.hosts e'))

  Alike-trans : (a b c : Controller) → Alike a b → Alike b c → Alike a c
  Alike-trans a b c (s, l, d, h) (s', l', d', h') =
      (s' ∙ s, l' ∙ l, d' ∙ d, λ mac host e. h mac host (h' mac host e))

  pub remove_hosts-Alike : (macs : List Text) (c : Controller) → Alike c (remove_hosts purge macs c)
  unfolding remove_hosts
  remove_hosts-Alike [] c = (refl, refl, refl, λ mac h e. e)
  remove_hosts-Alike (m ∷ macs) c =
      let c1 = remove_host purge m c (lookup m c.hosts) in
      Alike-trans c c1 (remove_hosts purge macs c1) (remove_host-gone m c (lookup m c.hosts) refl).1
        (remove_hosts-Alike macs c1)

  -- Every host named is gone.
  pub remove_hosts-gone :
      (macs : List Text) (c : Controller) (mac : Text) (h : Host)
      → Memᴰ mac macs
      → lookup mac (remove_hosts purge macs c).hosts ≢ some h
  unfolding remove_hosts
  remove_hosts-gone [] c mac h m e = elim m [ ]
  remove_hosts-gone (x ∷ macs) c mac h m e =
      let c1 = remove_host purge x c (lookup x c.hosts) in
      elim (Memᴰ.cases_cons m) [
        | inl same ↦
            let left = (remove_hosts-Alike macs c1).3 mac h e in
            let gone = (remove_host-gone x c (lookup x c.hosts) refl).0 in
            none-some (subst (λ y. lookup y c1.hosts ≡ none) (sym same) gone) left
        | inr later ↦ remove_hosts-gone macs c1 mac h later e
      ]
