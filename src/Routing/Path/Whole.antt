-- ===== src/Routing/Path/Whole.antt =====
-- What _build_path of controller.py answers, and where there is no route.
use mathlib.Core.List.{Memᴰ, reverse}
use cs305_2026spring_project.Prelude.{
  ℕ, suc, ◌≡◌, refl, sym, subst, ◌≢◌, inl, inr, ◌+◌, ◌-◌, true, false, Option, none, some, List, [],
  ◌∷◌, ◌++◌, length, take, Bool-cases, nat_beq, Option-cases, arith, nat_eq,
}
use cs305_2026spring_project.Prelude.Table.{Dict, lookup}
use cs305_2026spring_project.Routing.Graph.{Network, IsClosed, Labels}
use cs305_2026spring_project.Routing.Walk.{Reached}
use cs305_2026spring_project.Routing.Dijkstra.{returned}
use cs305_2026spring_project.Routing.Path.{
  run_algorithm, prev_get, hop_with, hop_from, get_next_hop, collect_path, inner, path_with,
  path_from, build_path,
}
use cs305_2026spring_project.Routing.Path.Agree.{run_algorithm-IsTree}
use cs305_2026spring_project.Routing.Path.Route.{Route, Route-inner, length-reverse}
use cs305_2026spring_project.Routing.Path.Back.{IsPositive, step_back, collect_lem}
use cs305_2026spring_project.Routing.Path.NextHop.{IsLeast, shortest_finite, get_next_hop_shortest}

build_path-some :
    (fuel : ℕ) (net : Network) (src dst : ℕ) (l : Labels) (u : ℕ) (found : List ℕ)
    → src ≢ dst
    → run_algorithm fuel net src ≡ returned l
    → prev_get l.prev dst ≡ some u
    → collect_path fuel l.prev src dst [] ≡ some (some found)
    → build_path fuel net src dst ≡ some (some (take (length found - 1) (reverse found)))
unfolding build_path path_from path_with inner
build_path-some fuel net src dst l u found apart e prev_is collected =
    let differ : nat_beq src dst ≡ false = ground arith in rw (differ, e, prev_is, collected) refl

-- With positive weights, when every link leads to a registered switch, from a registered switch to
-- another one that it reaches, _build_path with enough fuel returns the switches between the two
-- on a walk of the least weight.
pub build_path_shortest :
    (net : Network) (src dst k : ℕ)
    → IsClosed net
    → IsPositive net
    → Memᴰ src net.switches
    → src ≢ dst
    → Reached net src dst k
    → (enough : ℕ) × ((more : ℕ)
        → (between : List ℕ) × (n : ℕ) × (build_path (enough + more) net src dst
            ≡ some (some between))
          × Route net src (between ++ (dst ∷ [])) dst n
          × IsLeast net src dst n)
build_path_shortest net src dst k closed positive src_in apart reached =
    let (fuel, l, e, t, s) = run_algorithm-IsTree net src closed src_in in
    let (n, n_is, least) = shortest_finite l.dist s dst k reached in
    let back_off : dst ≢ src = λ same. apart (sym same) in
    let (u, j, prev_is, edge, j_is, sum, less) = step_back positive t dst n n_is back_off in
    (
      fuel + suc n,
      λ more.
          let (found, m, collected, route, bound) =
            collect_lem positive t ((fuel + suc n) + more) dst n dst 0 [] n_is (omega arith)
              (refl, refl) in
          let e' =
            subst (λ f. run_algorithm f net src ≡ returned l) (omega arith) (e (suc n + more)) in
          let inside = Route-inner net src (reverse found) dst m apart route in
          (
            take (length found - 1) (reverse found),
            m,
            build_path-some ((fuel + suc n) + more) net src dst l u found apart e' prev_is
                collected,
            subst (λ xs. Route net src xs dst m)
                (sym (
                  subst (λ len. take (len - 1) (reverse found) ++ (dst ∷ []) ≡ reverse found)
                    (length-reverse found) inside))
                route,
            λ i w walk. omega (arith, bound, least i w walk),
          ),
    )

some-prev_get :
    (prev : Dict ℕ (Option ℕ)) (v u : ℕ) → prev_get prev v ≡ some u → lookup v prev ≡ some (some u)
unfolding prev_get
some-prev_get prev v u e = ground arith

no_route-none :
    (fuel : ℕ) (net : Network) (src dst : ℕ) (l : Labels)
    → src ≢ dst
    → run_algorithm fuel net src ≡ returned l
    → prev_get l.prev dst ≡ none
    → (get_next_hop fuel net src dst ≡ some none) × (build_path fuel net src dst ≡ some none)
unfolding get_next_hop hop_from hop_with build_path path_from path_with
no_route-none fuel net src dst l apart e none_there =
    let differ : nat_beq src dst ≡ false = ground arith in
    (rw (differ, e, none_there) refl, rw (differ, e, none_there) refl)

-- When every link leads to a registered switch, from a registered switch to one that no walk
-- reaches, _get_next_hop and _build_path with enough fuel return None.
pub no_route :
    (net : Network) (src dst : ℕ)
    → IsClosed net
    → Memᴰ src net.switches
    → ((k : ℕ) → ¬ Reached net src dst k)
    → (enough : ℕ) × ((more : ℕ)
        → (get_next_hop (enough + more) net src dst ≡ some none)
          × (build_path (enough + more) net src dst ≡ some none))
no_route net src dst closed src_in unreached =
    let (fuel, l, e, t, s) = run_algorithm-IsTree net src closed src_in in
    let apart : src ≢ dst = λ same. unreached 0 (0, (sym same, refl)) in
    elim (Option-cases (prev_get l.prev dst)) [
      | inl none_there ↦
          (fuel, λ more. no_route-none (fuel + more) net src dst l apart (e more) none_there)
      | inr (u, e') ↦
          let h = t.chain u dst (some-prev_get l.prev dst u e') in
          absurd (unreached h.far (t.sound dst h.far h.far_is))
    ]

get_next_hop_self :
    (fuel : ℕ) (net : Network) (src dst : ℕ)
    → nat_beq src dst ≡ true
    → get_next_hop fuel net src dst ≡ some none
unfolding get_next_hop
get_next_hop_self fuel net src dst same = rw same refl

-- With positive weights, from a registered switch, _get_next_hop returns.
pub get_next_hop_ends :
    (net : Network) (src dst : ℕ)
    → IsClosed net
    → IsPositive net
    → Memᴰ src net.switches
    → (enough : ℕ) × ((more : ℕ)
        → (answer : Option ℕ) × (get_next_hop (enough + more) net src dst ≡ some answer))
get_next_hop_ends net src dst closed positive src_in =
    let (fuel, l, e, t, s) = run_algorithm-IsTree net src closed src_in in
    elim (Bool-cases (nat_beq src dst)) [
      | inl same ↦ (0, λ more. (none, get_next_hop_self (0 + more) net src dst same))
      | inr differ ↦
          let apart : src ≢ dst = ground arith in
          elim (Option-cases (prev_get l.prev dst)) [
            | inl none_there ↦ (
              fuel,
              λ more.
                  (none, (no_route-none (fuel + more) net src dst l apart (e more) none_there).0),
            )
            | inr (u, e') ↦
                let h = t.chain u dst (some-prev_get l.prev dst u e') in
                let (enough, answers) =
                  get_next_hop_shortest net src dst h.far closed positive src_in apart
                    (t.sound dst h.far h.far_is) in
                (
                  enough,
                  λ more.
                      let (hop, port, m, xs, e2, port_is, route, least) = answers more in
                      (some port, e2),
                )
          ]
    ]

build_path_self :
    (fuel : ℕ) (net : Network) (src dst : ℕ)
    → nat_beq src dst ≡ true
    → build_path fuel net src dst ≡ some (some [])
unfolding build_path
build_path_self fuel net src dst same = rw same refl

-- With positive weights, from a registered switch, _build_path returns.
pub build_path_ends :
    (net : Network) (src dst : ℕ)
    → IsClosed net
    → IsPositive net
    → Memᴰ src net.switches
    → (enough : ℕ) × ((more : ℕ)
        → (path : Option (List ℕ)) × (build_path (enough + more) net src dst ≡ some path))
build_path_ends net src dst closed positive src_in =
    let (fuel, l, e, t, s) = run_algorithm-IsTree net src closed src_in in
    elim (Bool-cases (nat_beq src dst)) [
      | inl same ↦ (0, λ more. (some [], build_path_self (0 + more) net src dst same))
      | inr differ ↦
          let apart : src ≢ dst = ground arith in
          elim (Option-cases (prev_get l.prev dst)) [
            | inl none_there ↦ (
              fuel,
              λ more.
                  (none, (no_route-none (fuel + more) net src dst l apart (e more) none_there).1),
            )
            | inr (u, e') ↦
                let h = t.chain u dst (some-prev_get l.prev dst u e') in
                let (enough, answers) =
                  build_path_shortest net src dst h.far closed positive src_in apart
                    (t.sound dst h.far h.far_is) in
                (
                  enough,
                  λ more. let (between, n, e2, route, least) = answers more in (some between, e2),
                )
          ]
    ]
