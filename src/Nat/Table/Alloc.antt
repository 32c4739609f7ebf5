-- ===== src/Nat/Table/Alloc.antt =====
-- `_alloc_port` finds a free port if there is one, and else does not end.
use mathlib.Core.Bool.{false≢true}
use cs305_2026spring_project.Prelude.{
  sym, ap, ◌∙◌, ℕ, zero, suc, ◌+◌, ◌-◌, ◌≤◌, ◌<◌, ◌≡◌, inl, inr, refl, true, false, Option, none,
  some, arith, leb, Bool-cases, if◌then◌else◌, nat_eq,
}
use cs305_2026spring_project.Prelude.Table.{Dict, contains}
use cs305_2026spring_project.Nat.Table.{Conn, Table, succ_port, alloc_loop, alloc_port}

-- A port that is handed out: 1024 to 65534.
abbrev pub IsPort : ℕ → Type 0
IsPort p = (1024 ≤ p) × (p ≤ 65534)

-- How many steps lie between two ports, going up and round.
distance : ℕ → ℕ → ℕ
distance p q = if leb p q then q - p else q + 64511 - p

-- What the loop ends with: a free port, and the one behind it.
abbrev Ends : Dict ℕ (Option Conn) → Option (ℕ × ℕ) → Type 0
Ends index r =
    (port : ℕ) × IsPort port × (contains port index ≡ false) × (r ≡ some (port, succ_port port))

distance-succ_port :
    (p q fuel : ℕ)
    → IsPort p
    → IsPort q
    → ¬ (p ≡ q)
    → distance p q < suc fuel
    → distance (succ_port p) q < fuel
unfolding distance
distance-succ_port p q fuel hp hq ne f = ground arith

taken_ne :
    (p q : ℕ) (index : Dict ℕ (Option Conn))
    → contains p index ≡ true
    → contains q index ≡ false
    → ¬ (p ≡ q)
taken_ne p q index taken free e = false≢true (sym free ∙ sym (ap (λ x. contains x index) e) ∙ taken)

alloc_loop-Ends :
    (fuel p q : ℕ) (index : Dict ℕ (Option Conn))
    → IsPort p
    → IsPort q
    → contains q index ≡ false
    → distance p q < fuel
    → Ends index (alloc_loop fuel p (succ_port p) index)
unfolding alloc_loop
alloc_loop-Ends zero p q index hp hq free f = absurd (omega arith)
alloc_loop-Ends (suc fuel) p q index hp hq free f = elim (Bool-cases (contains p index)) [
  | inl taken ↦
      rw (taken, alloc_loop)
        (alloc_loop-Ends fuel (succ_port p) q index (ground arith) hq free
          (distance-succ_port p q fuel hp hq (taken_ne p q index taken free) f))
  | inr here ↦ rw (here, alloc_loop) (p, hp, here, refl)
]

distance-lt : (p q : ℕ) → IsPort p → IsPort q → distance p q < 64511
unfolding distance
distance-lt p q hp hq = ground arith

-- What `_alloc_port` has to return on `t`: a free port from 1024 to 65534, with `_next_port` set to
-- the one behind it, and the rest of the table as it was.
abbrev pub Allocates : Table → Option (ℕ × Table) → Type 0
Allocates t r =
    (port : ℕ) × IsPort port
    × (contains port t.port_index ≡ false)
    × (r ≡ some (port, record t { next_port = succ_port port }))

-- If some port from 1024 to 65534 is free, _alloc_port returns within 64511 rounds a free port of
-- that range, and sets the next port to the one after it.
pub alloc_port_fresh :
    (t : Table) (q : ℕ)
    → IsPort t.next_port
    → IsPort q
    → contains q t.port_index ≡ false
    → Allocates t (alloc_port 64511 t)
unfolding alloc_port
alloc_port_fresh t q hn hq free =
    let (port, hp, fresh, e) =
      alloc_loop-Ends 64511 t.next_port q t.port_index hn hq free
        (distance-lt t.next_port q hn hq) in
    (port, hp, fresh, (rw (e, alloc_port) refl))

alloc_loop_never :
    (fuel p : ℕ) (index : Dict ℕ (Option Conn))
    → IsPort p
    → ((q : ℕ) → IsPort q → contains q index ≡ true)
    → alloc_loop fuel p (succ_port p) index ≡ none
unfolding alloc_loop
alloc_loop_never zero p index hp full = refl
alloc_loop_never (suc fuel) p index hp full =
    rw (full p hp, alloc_loop) (alloc_loop_never fuel (succ_port p) index (ground arith) full)

-- If every port from 1024 to 65534 is in the index, _alloc_port does not return, whatever the
-- number of rounds.
pub alloc_port_hangs :
    (fuel : ℕ) (t : Table)
    → IsPort t.next_port
    → ((q : ℕ) → IsPort q → contains q t.port_index ≡ true)
    → alloc_port fuel t ≡ none
unfolding alloc_port
alloc_port_hangs fuel t hn full =
    rw (alloc_loop_never fuel t.next_port t.port_index hn full, alloc_port) refl
