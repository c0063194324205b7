-- ===== src/Topology/WellFormed.antt =====
-- The invariant of the registry, and what the changes of one peer keep of it.
use libatbus_go.Base.{
  ℕ, zero, suc, ◌+◌, ◌<◌, ◌≡◌, ◌≢◌, refl, sym, ap, ◌∙◌, arith, List, [], ◌∷◌, ◌++◌, Option, none,
  some,
}
use libatbus_go.Base.{length, length-append}
use libatbus_go.Topology.Map.{lookup, insert, lookup-insert_self, lookup-insert_other}
use libatbus_go.Topology.{
  TopologyPeer, TopologyRegistry, create_topology_registry, create_topology_peer, peer_at,
  upstream_of, update, update_at, make_peer, get_peer_instance,
}
use libatbus_go.Topology.Chain.{IsAcyclic, same-IsAcyclic}
use mathlib.Core.Option.{some-injective, none-ne-some}
use native.Mathlib.Decide.{ℕ_discrete}

abbrev pub bus_id_of : List TopologyPeer → ℕ → ℕ
bus_id_of heap p = (peer_at heap p).bus_id

-- Every upstream is a peer of the heap.
abbrev pub IsLinked : List TopologyPeer → Type 0
IsLinked heap = (i j : ℕ) → upstream_of heap i ≡ some j → j < length heap

-- The registry finds a peer of the heap that has the id.
abbrev pub IsNamed : TopologyRegistry → Type 0
IsNamed r =
    (id p : ℕ) → lookup id r.data_of ≡ some p → (p < length r.heap) × (bus_id_of r.heap p ≡ id)

pub record WellFormed (r : TopologyRegistry) : Type 0 where
  pub acyclic : IsAcyclic r.heap
  pub linked : IsLinked r.heap
  pub named : IsNamed r

-- A change of one peer.
module _ (f : TopologyPeer → TopologyPeer) where
  pub length-update : (p : ℕ) (heap : List TopologyPeer) → length (update f p heap) ≡ length heap
  length-update p [] = refl
  length-update zero (x ∷ xs) = refl
  length-update (suc p) (x ∷ xs) = ap suc (length-update p xs)

  pub update_other :
      (p i : ℕ) (heap : List TopologyPeer) → i ≢ p → peer_at (update f p heap) i ≡ peer_at heap i
  update_other p i [] ne = refl
  update_other zero zero (x ∷ xs) ne = absurd (ne refl)
  update_other zero (suc i) (x ∷ xs) ne = refl
  update_other (suc p) zero (x ∷ xs) ne = refl
  update_other (suc p) (suc i) (x ∷ xs) ne = update_other p i xs (λ e. ne (ap suc e))

  pub update_self :
      (p : ℕ) (heap : List TopologyPeer)
      → p < length heap
      → peer_at (update f p heap) p ≡ f (peer_at heap p)
  update_self p [] h = absurd (omega arith)
  update_self zero (x ∷ xs) h = refl
  update_self (suc p) (x ∷ xs) h = update_self p xs (omega arith)

  -- What the change keeps of each peer, all keep.
  pub update_keeps {ℓ} :
      {A : Type ℓ} (g : TopologyPeer → A)
      → ((x : TopologyPeer) → g (f x) ≡ g x)
      → (p i : ℕ) (heap : List TopologyPeer) → g (peer_at (update f p heap) i) ≡ g (peer_at heap i)
  update_keeps g k p i [] = refl
  update_keeps g k zero zero (x ∷ xs) = k x
  update_keeps g k zero (suc i) (x ∷ xs) = refl
  update_keeps g k (suc p) zero (x ∷ xs) = refl
  update_keeps g k (suc p) (suc i) (x ∷ xs) = update_keeps g k p i xs

  pub update_at-WellFormed :
      (p : ℕ) (r : TopologyRegistry)
      → ((x : TopologyPeer) → (f x).upstream ≡ x.upstream)
      → ((x : TopologyPeer) → (f x).bus_id ≡ x.bus_id)
      → WellFormed r
      → WellFormed (update_at f p r)
  update_at-WellFormed p r ku kb w =
      let up : (i : ℕ) → upstream_of (update f p r.heap) i ≡ upstream_of r.heap i =
        λ i. update_keeps (λ x. x.upstream) ku p i r.heap in
      let long = length-update p r.heap in
      record {
        acyclic = same-IsAcyclic r.heap (update f p r.heap) up w.acyclic;
        linked = λ i j e. rw long (w.linked i j (sym (up i) ∙ e));
        named = λ id q e. (
          rw long (w.named id q e).0,
          update_keeps (λ x. x.bus_id) kb p q r.heap ∙ (w.named id q e).1,
        );
      }

-- A new peer at the end of the heap.
pub append_upstream :
    (heap : List TopologyPeer) (id i : ℕ)
    → upstream_of (heap ++ (create_topology_peer id ∷ [])) i ≡ upstream_of heap i
append_upstream [] id zero = refl
append_upstream [] id (suc i) = refl
append_upstream (x ∷ xs) id zero = refl
append_upstream (x ∷ xs) id (suc i) = append_upstream xs id i

append_old :
    (heap : List TopologyPeer) (y : TopologyPeer) (i : ℕ)
    → i < length heap
    → peer_at (heap ++ (y ∷ [])) i ≡ peer_at heap i
append_old [] y i h = absurd (omega arith)
append_old (x ∷ xs) y zero h = refl
append_old (x ∷ xs) y (suc i) h = append_old xs y i (omega arith)

append_new :
    (heap : List TopologyPeer) (y : TopologyPeer) → peer_at (heap ++ (y ∷ [])) (length heap) ≡ y
append_new [] y = refl
append_new (x ∷ xs) y = append_new xs y

-- `mutablePeer` keeps the invariant and every upstream, and its peer is the one registered.
pub make_peer-WellFormed :
    (id : ℕ) (o : Option ℕ) (r : TopologyRegistry)
    → get_peer_instance id r ≡ o
    → WellFormed r
    → WellFormed (make_peer id o r).1
      × (get_peer_instance id (make_peer id o r).1 ≡ some (make_peer id o r).0)
      × ((i : ℕ) → upstream_of (make_peer id o r).1.heap i ≡ upstream_of r.heap i)
make_peer-WellFormed id (some p) r e w = (w, e, λ i. refl)
make_peer-WellFormed id none r e w =
    let y = create_topology_peer id in
    let n = length r.heap in
    let heap' = r.heap ++ (y ∷ []) in
    let up = append_upstream r.heap id in
    let long : length heap' ≡ n + 1 = length-append r.heap (y ∷ []) in
    let named : IsNamed (record { heap = heap'; data_of = insert id n r.data_of }) = λ j q at_q.
      elim (ℕ_discrete id j) [
        | yes same ↦
            let there : lookup id (insert id n r.data_of) ≡ some q =
              ap (λ k. lookup k (insert id n r.data_of)) same ∙ at_q in
            let is : n ≡ q = some-injective n q (sym (lookup-insert_self id n r.data_of) ∙ there) in
            (
              omega (arith, long, is),
              ap (bus_id_of heap') (sym is) ∙ ap (λ x. x.bus_id) (append_new r.heap y) ∙ same,
            )
        | no ne ↦
            let old = w.named j q (sym (lookup-insert_other id j n r.data_of ne) ∙ at_q) in
            let short = old.0 in
            (omega (arith, long, short), ap (λ x. x.bus_id) (append_old r.heap y q old.0) ∙ old.1)
      ] in
    (
      record {
        acyclic = same-IsAcyclic r.heap heap' up w.acyclic;
        linked = λ i j e. let old = w.linked i j (sym (up i) ∙ e) in omega (arith, old, long);
        named = named;
      },
      lookup-insert_self id n r.data_of,
      up,
    )

-- A peer registered under another id stays so.
pub make_peer-other :
    (id j : ℕ) (o : Option ℕ) (r : TopologyRegistry)
    → id ≢ j
    → get_peer_instance j (make_peer id o r).1 ≡ get_peer_instance j r
make_peer-other id j (some p) r ne = refl
make_peer-other id j none r ne = lookup-insert_other id j (length r.heap) r.data_of ne

pub create-WellFormed : WellFormed create_topology_registry
unfolding create_topology_registry
create-WellFormed = record {
  acyclic = elim [ none ↦ (0, refl) | some p ↦ (1, refl) ];
  linked = λ i j e. absurd (none-ne-some j e);
  named = λ id p e. absurd (none-ne-some p e);
}
