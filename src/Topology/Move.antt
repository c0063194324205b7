-- ===== src/Topology/Move.antt =====
-- The steps of `UpdatePeer`, each keeping the invariant.
use libatbus_go.Base.{
  ℕ, ◌<◌, ◌≡◌, ◌≢◌, refl, sym, ap, ◌∙◌, List, Option, none, some, true, inl, inr, Bool-cases,
}
use libatbus_go.Base.{length}
use libatbus_go.Topology.Policy.{TopologyData}
use libatbus_go.Topology.{
  TopologyPeer, TopologyRegistry, peer_at, upstream_of, update, update_at, update_upstream,
  update_data, set_proactively_added, add_downstream, remove_downstream, removes, touch, leave,
  join,
}
use libatbus_go.Topology.Map.{lookup}
use libatbus_go.Topology.Chain.{Ends, moved-Ends}
use libatbus_go.Topology.WellFormed.{
  WellFormed, bus_id_of, length-update, update_other, update_self, update_keeps,
  update_at-WellFormed,
}
use native.Mathlib.Decide.{ℕ_discrete}

-- The fields that say where a peer stands.
pub record Same (r r' : TopologyRegistry) : Type 0 where
  pub upstreams : (i : ℕ) → upstream_of r'.heap i ≡ upstream_of r.heap i
  pub ids : (i : ℕ) → bus_id_of r'.heap i ≡ bus_id_of r.heap i
  pub proactive :
      (i : ℕ) → (peer_at r'.heap i).proactively_added ≡ (peer_at r.heap i).proactively_added
  pub registered : r'.data_of ≡ r.data_of

remove_downstream_keeps {ℓ} :
    {A : Type ℓ} (g : TopologyPeer → A) (target p : ℕ)
    → ((x : TopologyPeer) (xs : List (ℕ × ℕ)) → g (record x { downstream = xs }) ≡ g x)
    → (x : TopologyPeer) → g (remove_downstream target p x) ≡ g x
remove_downstream_keeps g target p k x =
    elim (Bool-cases (removes p (lookup target x.downstream))) [
      | inl e ↦ rw e (k x _)
      | inr e ↦ rw e refl
    ]

pub leave_lem :
    (target p : ℕ) (o : Option ℕ) (r : TopologyRegistry)
    → WellFormed r
    → WellFormed (leave target p o r) × Same r (leave target p o r)
leave_lem target p none r w =
    (w, record { upstreams = λ i. refl; ids = λ i. refl; proactive = λ i. refl; registered = refl })
leave_lem target p (some q) r w =
    let f = remove_downstream target p in
    let up = remove_downstream_keeps (λ x. x.upstream) target p (λ x xs. refl) in
    let id = remove_downstream_keeps (λ x. x.bus_id) target p (λ x xs. refl) in
    let pro = remove_downstream_keeps (λ x. x.proactively_added) target p (λ x xs. refl) in
    (
      update_at-WellFormed f q r up id w,
      record {
        upstreams = λ i. update_keeps f (λ x. x.upstream) up q i r.heap;
        ids = λ i. update_keeps f (λ x. x.bus_id) id q i r.heap;
        proactive = λ i. update_keeps f (λ x. x.proactively_added) pro q i r.heap;
        registered = refl;
      },
    )

pub join_lem :
    (target p : ℕ) (o : Option ℕ) (r : TopologyRegistry)
    → WellFormed r
    → WellFormed (join target p o r) × Same r (join target p o r)
join_lem target p none r w =
    (w, record { upstreams = λ i. refl; ids = λ i. refl; proactive = λ i. refl; registered = refl })
join_lem target p (some q) r w =
    let f = add_downstream target p in
    (
      update_at-WellFormed f q r (λ x. refl) (λ x. refl) w,
      record {
        upstreams = λ i. update_keeps f (λ x. x.upstream) (λ x. refl) q i r.heap;
        ids = λ i. update_keeps f (λ x. x.bus_id) (λ x. refl) q i r.heap;
        proactive = λ i. update_keeps f (λ x. x.proactively_added) (λ x. refl) q i r.heap;
        registered = refl;
      },
    )

update_data_keeps :
    (d : Option TopologyData) (x : TopologyPeer)
    → ((update_data d x).upstream ≡ x.upstream)
      × ((update_data d x).bus_id ≡ x.bus_id)
      × ((update_data d x).proactively_added ≡ x.proactively_added)
update_data_keeps none x = (refl, refl, refl)
update_data_keeps (some d) x = (refl, refl, refl)

-- `touch` makes the peer proactive and keeps where all stand.
pub touch_lem :
    (d : Option TopologyData) (p : ℕ) (r : TopologyRegistry)
    → WellFormed r
    → p < length r.heap
    → WellFormed (touch d p r)
      × ((i : ℕ) → upstream_of (touch d p r).heap i ≡ upstream_of r.heap i)
      × ((i : ℕ) → bus_id_of (touch d p r).heap i ≡ bus_id_of r.heap i)
      × ((peer_at (touch d p r).heap p).proactively_added ≡ true)
touch_lem d p r w h =
    let s = set_proactively_added true in
    let k = update_data_keeps d in
    let r1 = update_at s p r in
    (
      update_at-WellFormed (update_data d) p r1 (λ x. (k x).0) (λ x. (k x).1)
          (update_at-WellFormed s p r (λ x. refl) (λ x. refl) w),
      λ i.
          update_keeps (update_data d) (λ x. x.upstream) (λ x. (k x).0) p i r1.heap
          ∙ update_keeps s (λ x. x.upstream) (λ x. refl) p i r.heap,
      λ i.
          update_keeps (update_data d) (λ x. x.bus_id) (λ x. (k x).1) p i r1.heap
          ∙ update_keeps s (λ x. x.bus_id) (λ x. refl) p i r.heap,
      update_keeps (update_data d) (λ x. x.proactively_added) (λ x. (k x).2) p p r1.heap
          ∙ ap (λ x. x.proactively_added) (update_self s p r.heap h),
    )

-- A peer of the heap, or none.
abbrev pub IsHeld : TopologyRegistry → Option ℕ → Type 0
IsHeld r u = (q : ℕ) → u ≡ some q → q < length r.heap

-- Another upstream, whose chain ends once it is in place, keeps the invariant.
pub set_upstream-WellFormed :
    (p : ℕ) (u : Option ℕ) (r : TopologyRegistry)
    → WellFormed r
    → p < length r.heap
    → IsHeld r u
    → Ends (update (update_upstream u) p r.heap) u
    → WellFormed (update_at (update_upstream u) p r)
set_upstream-WellFormed p u r w h held end =
    let f = update_upstream u in
    let heap' = update f p r.heap in
    let long = length-update f p r.heap in
    let other : (i : ℕ) → i ≢ p → upstream_of heap' i ≡ upstream_of r.heap i =
      λ i ne. ap (λ x. x.upstream) (update_other f p i r.heap ne) in
    let here : upstream_of heap' p ≡ u = ap (λ x. x.upstream) (update_self f p r.heap h) in
    record {
      acyclic =
          λ o. let (n, e) = w.acyclic o in moved-Ends r.heap heap' p u other (inl here) end n o e;
      linked = λ i j e. elim (ℕ_discrete i p) [
        | yes at_p ↦ rw long (held j (sym here ∙ ap (upstream_of heap') (sym at_p) ∙ e))
        | no ne ↦ rw long (w.linked i j (sym (other i ne) ∙ e))
      ];
      named = λ id q e. (
        rw long (w.named id q e).0,
        update_keeps f (λ x. x.bus_id) (λ x. refl) p q r.heap ∙ (w.named id q e).1,
      );
    }
