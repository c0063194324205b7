-- ===== src/Topology/Chain.antt =====
-- The chain of upstreams of a peer, and what a change of one upstream does to it.
use libatbus_go.Base.{
  ℕ, zero, suc, ◌≤◌, ◌<◌, ◌≡◌, ◌≢◌, refl, sym, ap, ◌∙◌, arith, List, Option, none, some, Bool, true,
  false, ◌⊎◌, inl, inr, Bool-cases,
}
use libatbus_go.Base.{length, ◌==◌, ==_iff}
use libatbus_go.Topology.{TopologyPeer, peer_at, upstream_of, cycle_from}
use native.Mathlib.Decide.{ℕ_discrete}

-- The pointer after `n` steps up.
abbrev pub climb : List TopologyPeer → ℕ → Option ℕ → Option ℕ
climb heap n none = none
climb heap zero (some p) = some p
climb heap (suc n) (some p) = climb heap n (upstream_of heap p)

-- The chain from `o` ends.
abbrev pub Ends : List TopologyPeer → Option ℕ → Type 0
Ends heap o = (n : ℕ) × (climb heap n o ≡ none)

-- No chain of upstreams goes round.
abbrev pub IsAcyclic : List TopologyPeer → Type 0
IsAcyclic heap = (o : Option ℕ) → Ends heap o

-- A change of the peers that keeps every upstream keeps every chain.
pub same-climb :
    (heap heap' : List TopologyPeer)
    → ((p : ℕ) → upstream_of heap' p ≡ upstream_of heap p)
    → (n : ℕ) (o : Option ℕ) → climb heap' n o ≡ climb heap n o
same-climb heap heap' same n none = refl
same-climb heap heap' same zero (some p) = refl
same-climb heap heap' same (suc n) (some p) =
    ap (climb heap' n) (same p) ∙ same-climb heap heap' same n (upstream_of heap p)

pub same-IsAcyclic :
    (heap heap' : List TopologyPeer)
    → ((p : ℕ) → upstream_of heap' p ≡ upstream_of heap p)
    → IsAcyclic heap
    → IsAcyclic heap'
same-IsAcyclic heap heap' same a o = let (n, e) = a o in (n, same-climb heap heap' same n o ∙ e)

-- On a chain that ends, as much fuel as it has steps is enough for the check for a circle, and more
-- changes nothing.
pub cycle_from-total :
    (heap : List TopologyPeer) (target n : ℕ) (o : Option ℕ)
    → climb heap n o ≡ none
    → (b : Bool) × ((m : ℕ) → n ≤ m → cycle_from m heap target o ≡ some b)
unfolding cycle_from
cycle_from-total heap target n none e = (false, elim [ zero ↦ λ h. refl | suc m ↦ λ h. refl ])
cycle_from-total heap target zero (some p) e = absurd (grind (arith, e))
cycle_from-total heap target (suc n) (some p) e =
    let (b, rest) = cycle_from-total heap target n (upstream_of heap p) e in
    elim (Bool-cases ((peer_at heap p).bus_id == target)) [
      | inl same ↦ (true, elim [ zero ↦ λ h. absurd (omega arith) | suc m ↦ λ h. rw same refl ])
      | inr other ↦ (
        b,
        elim [
          | zero ↦ λ h. absurd (omega arith)
          | suc m ↦ λ h. rw (other, rest m (omega arith)) refl
        ],
      )
    ]

-- A chain on which the check met no peer of the id `target` keeps its end, whatever becomes of the
-- upstream of a peer of that id.
pub avoids-climb :
    (heap heap' : List TopologyPeer) (target p : ℕ)
    → (peer_at heap p).bus_id ≡ target
    → ((i : ℕ) → i ≢ p → upstream_of heap' i ≡ upstream_of heap i)
    → (n : ℕ) (o : Option ℕ) → cycle_from n heap target o ≡ some false
    → climb heap' n o ≡ none
unfolding cycle_from
avoids-climb heap heap' target p named other n none e = refl
avoids-climb heap heap' target p named other zero (some c) e = absurd (grind (arith, e))
avoids-climb heap heap' target p named other (suc n) (some c) e =
    elim (Bool-cases ((peer_at heap c).bus_id == target)) [
      | inl same ↦ absurd (grind (arith, rw same at e))
      | inr differs ↦
          let ne : c ≢ p = λ i. absurd (grind (arith, ==_iff, differs, i, named)) in
          ap (climb heap' n) (other c ne)
          ∙ avoids-climb heap heap' target p named other n (upstream_of heap c) (rw differs at e)
    ]

-- Where the new upstream of `p` has a chain that ends, every chain that ended does so still.
pub moved-Ends :
    (heap heap' : List TopologyPeer) (p : ℕ) (u : Option ℕ)
    → ((i : ℕ) → i ≢ p → upstream_of heap' i ≡ upstream_of heap i)
    → (upstream_of heap' p ≡ u) ⊎ (upstream_of heap' p ≡ upstream_of heap p)
    → Ends heap' u
    → (n : ℕ) (o : Option ℕ) → climb heap n o ≡ none
    → Ends heap' o
moved-Ends heap heap' p u other at_p end n none e = (0, refl)
moved-Ends heap heap' p u other at_p end zero (some c) e = absurd (grind (arith, e))
moved-Ends heap heap' p u other at_p end (suc n) (some c) e =
    let (k, rest) = moved-Ends heap heap' p u other at_p end n (upstream_of heap c) e in
    elim (ℕ_discrete c p) [
      | yes i ↦ elim at_p [
        | inl new ↦ (
          suc end.0,
          ap (λ x. climb heap' end.0 (upstream_of heap' x)) i ∙ ap (climb heap' end.0) new ∙ end.1,
        )
        | inr old ↦ (
          suc k,
          ap (climb heap' k) (ap (upstream_of heap') i ∙ old ∙ ap (upstream_of heap) (sym i))
              ∙ rest,
        )
      ]
      | no ne ↦ (suc k, ap (climb heap' k) (other c ne) ∙ rest)
    ]

-- A chain inside the heap stays as it is where only peers outside change.
pub held-climb :
    (heap heap' : List TopologyPeer)
    → ((i j : ℕ) → upstream_of heap i ≡ some j → j < length heap)
    → ((i : ℕ) → i < length heap → upstream_of heap' i ≡ upstream_of heap i)
    → (n : ℕ) (o : Option ℕ) → ((q : ℕ) → o ≡ some q → q < length heap)
    → climb heap' n o ≡ climb heap n o
held-climb heap heap' linked same n none h = refl
held-climb heap heap' linked same zero (some c) h = refl
held-climb heap heap' linked same (suc n) (some c) h =
    ap (climb heap' n) (same c (h c refl))
    ∙ held-climb heap heap' linked same n (upstream_of heap c) (λ q. linked c q)
