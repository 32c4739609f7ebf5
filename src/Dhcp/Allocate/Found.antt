-- ===== src/Dhcp/Allocate/Found.antt =====
-- What `_find_free_ip` returns, and when it returns nothing.
use cs305_2026spring_project.Prelude.{
  ℕ, zero, suc, ◌+◌, ◌-◌, ◌≤◌, ◌<◌, ◌≡◌, ◌≢◌, inl, inr, Bool, true, false, Option, none, some,
  Bytes, Text, List, [], ◌∷◌, arith, Bool-cases, Option-cases, nat_beq, text_eq, ==_iff, ap,
  ==_refl, sym, subst,
}
use cs305_2026spring_project.Prelude.Table.{Dict, lookup, lookup-insert}
use cs305_2026spring_project.Codec.Inet.{int_to_ip}
use cs305_2026spring_project.Dhcp.State.{Lease, Pool, State, offered}
use cs305_2026spring_project.Dhcp.Release.{is_allocated}
use cs305_2026spring_project.Dhcp.Allocate.{
  is_live, used_ips, in_set, claim, probe_ok, search_pool, find_free_ip,
}

-- Every live lease's address is in the set.
used_ips-live :
    (now : ℕ) (d : Dict Bytes Lease) (mac : Bytes) (info : Lease)
    → lookup mac d ≡ some info
    → is_live now info ≡ true
    → in_set info.ip (used_ips now d) ≡ true
unfolding used_ips in_set lookup
used_ips-live now [] mac info e live = cc
used_ips-live now ((m, i) ∷ d) mac info e live =
    ground (arith, used_ips-live now d mac info, ==_iff i.ip info.ip)

-- The lease that the search leaves.
abbrev pub offer_of : Pool → Text → ℕ → Lease
offer_of pool ip now = record {
  ip = ip;
  assigned_at = now;
  expires_at = now + pool.lease_time;
  state = offered;
}

-- The outcome `r` of a search from `i` over `n` addresses is a claim of `ip`: it is one of them, it
-- is not used, and it is in the client's new lease.
abbrev pub Claims : Pool → ℕ → ℕ → List Text → Bytes → ℕ → Text → Option Text × State → Type 0
Claims pool n i used mac now ip r =
    (k : ℕ) × (i ≤ k)
    × (k < i + n)
    × (ip ≡ int_to_ip k)
    × (in_set ip used ≡ false)
    × (lookup mac r.1.mac_to_lease ≡ some (offer_of pool ip now))

widen :
    (pool : Pool) (n i : ℕ) (used : List Text) (mac : Bytes) (now : ℕ) (ip : Text)
    (r : Option Text × State)
    → Claims pool n (i + 1) used mac now ip r
    → Claims pool (suc n) i used mac now ip r
widen pool n i used mac now ip r (k, lo, hi, e, free, l) = (k, omega arith, omega arith, e, free, l)

claim-Claims :
    (pool : Pool) (n i : ℕ) (used : List Text) (mac : Bytes) (now : ℕ) (s : State) (ip : Text)
    → in_set (int_to_ip i) used ≡ false
    → int_to_ip i ≡ ip
    → Claims pool (suc n) i used mac now ip (some (int_to_ip i), claim pool mac (int_to_ip i) now s)
unfolding claim
claim-Claims pool n i used mac now s ip free e = (
  i,
  omega arith,
  omega arith,
  sym e,
  rw (← e) free,
  rw (← e) (rw (lookup-insert mac mac _ s.mac_to_lease, ==_refl mac)),
)

module _ (pool : Pool) (during : Text → State → State) (datapath : Option ℕ) where
  abbrev search : ℕ → ℕ → List Text → Bytes → ℕ → State → Option Text × State
  search = search_pool pool during datapath

  abbrev probe : Text → State → Bool × State
  probe = probe_ok pool during datapath

  module _ (n i : ℕ) (used : List Text) (mac : Bytes) (now : ℕ) (s : State) where
    -- One address of the search: it is used, its probe is clear, or its probe fails.
    pub search_used :
        in_set (int_to_ip i) used ≡ true
        → search (suc n) i used mac now s ≡ search n (i + 1) used mac now s
    unfolding search_pool
    search_used e = rw (e, search_pool)

    pub search_clear :
        in_set (int_to_ip i) used ≡ false
        → (probe (int_to_ip i) s).0 ≡ true
        → search (suc n) i used mac now s
          ≡ (some (int_to_ip i), claim pool mac (int_to_ip i) now (probe (int_to_ip i) s).1)
    unfolding search_pool
    search_clear e p = rw (e, search_pool) (rw p)

    pub search_taken :
        in_set (int_to_ip i) used ≡ false
        → (probe (int_to_ip i) s).0 ≡ false
        → search (suc n) i used mac now s ≡ search n (i + 1) used mac now (probe (int_to_ip i) s).1
    unfolding search_pool
    search_taken e p = rw (e, search_pool) (rw p)

  search-Claims :
      (n i : ℕ) (used : List Text) (mac : Bytes) (now : ℕ) (s : State) (ip : Text)
      → (search n i used mac now s).0 ≡ some ip
      → Claims pool n i used mac now ip (search n i used mac now s)
  unfolding search_pool
  search-Claims zero i used mac now s ip = λ e. cc e
  search-Claims (suc n) i used mac now s ip =
      let Good =
        λ (r : Option Text × State). r.0 ≡ some ip → Claims pool (suc n) i used mac now ip r in
      elim (Bool-cases (in_set (int_to_ip i) used)) [
        | inl old ↦ subst Good (sym (search_used n i used mac now s old)) (λ e.
            widen pool n i used mac now ip (search n (i + 1) used mac now s)
              (search-Claims n (i + 1) used mac now s ip e))
        | inr free ↦
            let s' = (probe (int_to_ip i) s).1 in
            elim (Bool-cases (probe (int_to_ip i) s).0) [
              | inl clear ↦
                  subst Good (sym (search_clear n i used mac now s free clear))
                    (λ e. claim-Claims pool n i used mac now s' ip free (cc e))
              | inr taken ↦ subst Good (sym (search_taken n i used mac now s free taken)) (λ e.
                  widen pool n i used mac now ip (search n (i + 1) used mac now s')
                    (search-Claims n (i + 1) used mac now s' ip e))
            ]
      ]

  -- A search that finds nothing: every address that is not used has failed a probe. Without probes,
  -- every address is used.
  pub search_exhausted :
      (n i : ℕ) (used : List Text) (mac : Bytes) (now : ℕ) (s : State)
      → ((ip : Text) (t : State) → (probe ip t).0 ≡ true)
      → (search n i used mac now s).0 ≡ none
      → (k : ℕ) → i ≤ k
      → k < i + n
      → in_set (int_to_ip k) used ≡ true
  search_exhausted zero i used mac now s all e k lo hi = absurd (omega arith)
  search_exhausted (suc n) i used mac now s all e k lo hi =
      elim (Bool-cases (in_set (int_to_ip i) used)) [
        | inl old ↦ elim (Bool-cases (nat_beq i k)) [
          | inl here ↦ let same : i ≡ k = ground arith in rw (← same) old
          | inr later ↦
              search_exhausted n (i + 1) used mac now s all
                (rw (← search_used n i used mac now s old) e) k (ground arith) (omega arith)
        ]
        | inr free ↦ cc (search_clear n i used mac now s free (all (int_to_ip i) s))
      ]

pub find_free_ip_idle :
    (pool : Pool) (during : Text → State → State) (datapath : Option ℕ) (mac : Bytes) (s : State)
    → ((info : Lease) → lookup mac s.mac_to_lease ≡ some info → is_allocated info.state ≡ false)
    → find_free_ip pool during datapath mac s
      ≡ search_pool pool during datapath
          (pool.last + 1 - pool.first)
          pool.first
          (used_ips s.clock s.mac_to_lease)
          mac
          s.clock
          s
unfolding find_free_ip
find_free_ip_idle pool during datapath mac s idle =
    elim (Option-cases (lookup mac s.mac_to_lease)) [
      | inl absent ↦ rw (absent, find_free_ip)
      | inr (info, known) ↦ rw (known, find_free_ip) (rw (idle info known))
    ]

-- For a client without an allocated lease, an address that _find_free_ip returns lies in the pool,
-- is held by no lease that was live when the search began, before the probes, and stands in the
-- new lease of the client as an offer.
pub find_free_ip_fresh :
    (pool : Pool) (during : Text → State → State) (datapath : Option ℕ) (mac : Bytes) (s : State)
    (ip : Text)
    → ((info : Lease) → lookup mac s.mac_to_lease ≡ some info → is_allocated info.state ≡ false)
    → (find_free_ip pool during datapath mac s).0 ≡ some ip
    → (k : ℕ) × (pool.first ≤ k)
      × (k ≤ pool.last)
      × (ip ≡ int_to_ip k)
      × ((m : Bytes) (info : Lease)
          → lookup m s.mac_to_lease ≡ some info
          → is_live s.clock info ≡ true
          → info.ip ≢ ip)
      × (lookup mac (find_free_ip pool during datapath mac s).1.mac_to_lease
          ≡ some (offer_of pool ip s.clock))
find_free_ip_fresh pool during datapath mac s ip idle =
    let used = used_ips s.clock s.mac_to_lease in
    let n = pool.last + 1 - pool.first in
    let new : find_free_ip pool during datapath mac s
        ≡ search_pool pool during datapath n pool.first used mac s.clock s =
      find_free_ip_idle pool during datapath mac s idle in
    subst
      (λ (r : Option Text × State).
        r.0 ≡ some ip
        → (k : ℕ) × (pool.first ≤ k)
          × (k ≤ pool.last)
          × (ip ≡ int_to_ip k)
          × ((m : Bytes) (info : Lease)
              → lookup m s.mac_to_lease ≡ some info
              → is_live s.clock info ≡ true
              → info.ip ≢ ip)
          × (lookup mac r.1.mac_to_lease ≡ some (offer_of pool ip s.clock)))
      (sym new)
      (λ e.
        let (k, lo, hi, is_k, free, lease) =
          search-Claims pool during datapath n pool.first used mac s.clock s ip e in
        (
          k,
          lo,
          omega arith,
          is_k,
          λ m info known live same. cc (
            used_ips-live s.clock s.mac_to_lease m info known live,
            ap (λ x. in_set x used) same,
          ),
          lease,
        ))

-- The address that an allocated client gets is its own, and nothing changes.
pub find_free_ip_own :
    (pool : Pool) (during : Text → State → State) (datapath : Option ℕ) (mac : Bytes) (s : State)
    (info : Lease)
    → lookup mac s.mac_to_lease ≡ some info
    → is_allocated info.state ≡ true
    → find_free_ip pool during datapath mac s ≡ (some info.ip, s)
unfolding find_free_ip
find_free_ip_own pool during datapath mac s info e own = rw (e, find_free_ip) (rw own)
