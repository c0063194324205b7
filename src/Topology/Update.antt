-- ===== src/Topology/Update.antt =====
-- `UpdatePeer`: it ends, keeps the invariant, and puts the peer where it was asked to.
use libatbus_go.Base.{
  ℕ, ◌≤◌, ◌<◌, ◌≡◌, ◌≢◌, refl, sym, ap, ◌∙◌, arith, Option, none, some, Bool, true, false, ◌⊎◌, inl,
  inr, Bool-cases,
}
use libatbus_go.Base.{length, ◌==◌, ==_iff, ≢→==}
use libatbus_go.Topology.Policy.{TopologyData}
use libatbus_go.Topology.{
  TopologyRegistry, upstream_of, update, update_at, update_upstream, touch, join, move_peer,
  move_unless, same_upstream, get_peer_instance, make_peer, mutable_peer, find_upstream,
  update_found, update_peer,
}
use libatbus_go.Topology.Chain.{held-climb, Ends, cycle_from-total}
use libatbus_go.Topology.WellFormed.{
  WellFormed, update_other, make_peer-WellFormed, make_peer-other,
}
use libatbus_go.Topology.Move.{touch_lem}
use libatbus_go.Topology.Place.{
  IsPeerOf, Placed, Circle, Placed-at, IsPeerOf-IsHeld, placed_lem, move_peer_lem, cycle_from-true,
}

-- What `UpdatePeer` comes to, on any fuel from some on.
pub record Updated (target upstream : ℕ) (run : ℕ → Option (Bool × TopologyRegistry)) : Type 0 where
  pub fuel : ℕ
  pub done : Bool
  pub after : TopologyRegistry
  pub answers : (m : ℕ) → fuel ≤ m → run m ≡ some (done, after)
  pub keeps : WellFormed after
  pub result :
      ((done ≡ true) × Placed after target upstream)
      ⊎ ((done ≡ false) × Circle after target upstream)

same_upstream-eq : (o u : Option ℕ) → same_upstream o u ≡ true → o ≡ u
same_upstream-eq none u e = absurd (grind (arith, e))
same_upstream-eq (some x) none e = absurd (grind (arith, e))
same_upstream-eq (some x) (some y) e = ap some ((==_iff x y).0 e)

IsPeerOf-Same :
    (r r' : TopologyRegistry) (id : ℕ) (u : Option ℕ)
    → get_peer_instance id r' ≡ get_peer_instance id r
    → IsPeerOf r id u
    → IsPeerOf r' id u
IsPeerOf-Same r r' id u same h = elim h [
  | inl x ↦ inl x
  | inr (q, at_q, is_q) ↦ inr (q, same ∙ at_q, is_q)
]

-- A peer that exists.
found_lem :
    (target upstream p : ℕ) (u : Option ℕ) (d : Option TopologyData) (r : TopologyRegistry)
    → WellFormed r
    → get_peer_instance target r ≡ some p
    → IsPeerOf r upstream u
    → Updated target upstream (λ m. update_found m target (some p) u d r)
unfolding update_found
found_lem target upstream p u d r w found above =
    let r' = touch d p r in
    let (w', up, ids, pro) = touch_lem d p r w (w.named target p found).0 in
    elim (Bool-cases (same_upstream (upstream_of r'.heap p) u)) [
      | inl same ↦ record {
        fuel = 0;
        done = true;
        after = r';
        answers = λ m h. rw same refl;
        keeps = w';
        result = inl (
          refl,
          Placed-at r r' target upstream p u refl found above
              (same_upstream-eq (upstream_of r'.heap p) u same) pro,
        );
      }
      | inr other ↦
          let (n, end) = w'.acyclic u in
          let (b, check) = cycle_from-total r'.heap target n u end in
          elim (Bool-cases b) [
            | inl yes_circle ↦
                let here = check n (omega arith) ∙ ap some yes_circle in
                let (k, i, reaches, is) = cycle_from-true n target r'.heap u here in
                record {
                  fuel = n;
                  done = false;
                  after = r';
                  answers = λ m h.
                      rw other
                        (ap (λ c. move_unless c target p u r') (check m h ∙ ap some yes_circle));
                  keeps = w';
                  result = inr (
                    refl,
                    record {
                      start = u;
                      starts = above;
                      steps = k;
                      met = i;
                      reaches = reaches;
                      names = is;
                    },
                  );
                }
            | inr no_circle ↦
                let here = check n (omega arith) ∙ ap some no_circle in
                let (keeps, placed) =
                  move_peer_lem n target upstream p u r' w' found pro above here in
                record {
                  fuel = n;
                  done = true;
                  after = move_peer target p u r';
                  answers = λ m h.
                      rw other
                        (ap (λ c. move_unless c target p u r') (check m h ∙ ap some no_circle));
                  keeps = keeps;
                  result = inl (refl, placed);
                }
          ]
    ]

-- A peer that is made.
made_lem :
    (target upstream : ℕ) (u : Option ℕ) (d : Option TopologyData) (r : TopologyRegistry)
    → WellFormed r
    → target ≢ upstream
    → get_peer_instance target r ≡ none
    → IsPeerOf r upstream u
    → Updated target upstream (λ m. update_found m target none u d r)
unfolding update_found mutable_peer
made_lem target upstream u d r w ne absent above =
    let p = length r.heap in
    let r1 = (make_peer target none r).1 in
    let (w1, found, same1) = make_peer-WellFormed target none r absent w in
    let h = (w1.named target p found).0 in
    let (w2, same2, ids, pro) = touch_lem d p r1 w1 h in
    let r2 = touch d p r1 in
    let f = update_upstream u in
    let heap' = update f p r2.heap in
    let kept : (i : ℕ) → i < p → upstream_of heap' i ≡ upstream_of r.heap i = λ i below.
      ap (λ x. x.upstream) (update_other f p i r2.heap (λ e. omega (arith, e, below)))
      ∙ same2 i
      ∙ same1 i in
    let held = IsPeerOf-IsHeld r upstream u w above in
    let (n, e) = w.acyclic u in
    let end : Ends heap' u = (n, held-climb r.heap heap' w.linked kept n u held ∙ e) in
    let above2 = IsPeerOf-Same r r2 upstream u (make_peer-other target upstream none r ne) above in
    let h2 = (w2.named target p found).0 in
    let (w3, table, up, same3) =
      placed_lem r2 target p u w2 h2 (IsPeerOf-IsHeld r2 upstream u w2 above2) end in
    record {
      fuel = 0;
      done = true;
      after = join target p u (update_at f p r2);
      answers = λ m h. rw absent refl;
      keeps = w3;
      result = inl (
        refl,
        Placed-at r2 (join target p u (update_at f p r2)) target upstream p u table found above2 up
            (same3 ∙ pro),
      );
    }

-- The pointer for the upstream, made where it is not registered.
find_upstream_lem :
    (target upstream : ℕ) (r : TopologyRegistry)
    → WellFormed r
    → target ≢ upstream
    → WellFormed (find_upstream upstream r).1
      × IsPeerOf (find_upstream upstream r).1 upstream (find_upstream upstream r).0
      × (get_peer_instance target (find_upstream upstream r).1 ≡ get_peer_instance target r)
unfolding mutable_peer
find_upstream_lem target upstream r w ne = elim (Bool-cases (upstream == 0)) [
  | inl e ↦ rw e (w, inl ((==_iff upstream 0).0 e, refl), refl)
  | inr e ↦
      let o = get_peer_instance upstream r in
      let (w', found, same) = make_peer-WellFormed upstream o r refl w in
      rw e (
        w',
        inr ((make_peer upstream o r).0, found, refl),
        make_peer-other upstream target o r (λ i. ne (sym i)),
      )
]

update_found_lem :
    (target upstream : ℕ) (o u : Option ℕ) (d : Option TopologyData) (r : TopologyRegistry)
    → WellFormed r
    → target ≢ upstream
    → get_peer_instance target r ≡ o
    → IsPeerOf r upstream u
    → Updated target upstream (λ m. update_found m target o u d r)
update_found_lem target upstream none u d r w ne e above =
    made_lem target upstream u d r w ne e above
update_found_lem target upstream (some p) u d r w ne e above =
    found_lem target upstream p u d r w e above

-- On a well-formed registry, for two different ids of which that of the peer is not 0, `UpdatePeer`
-- ends: from some fuel on it answers, always the same, and the registry stays well-formed. Either
-- it answers true, and the peer is registered, proactive, and below the peer registered for the
-- upstream, or below none for the upstream 0; or it answers false, and the chain of upstreams from
-- the asked one comes to a peer with the id of the target.
pub update_peer_lem :
    (target upstream : ℕ) (d : Option TopologyData) (r : TopologyRegistry)
    → WellFormed r
    → target ≢ 0
    → target ≢ upstream
    → Updated target upstream (λ m. update_peer m target upstream d r)
unfolding update_peer
update_peer_lem target upstream d r w nz ne =
    let (w', above, same) = find_upstream_lem target upstream r w ne in
    rw (≢→== target 0 nz, ≢→== target upstream ne)
      (update_found_lem target upstream (get_peer_instance target r) (find_upstream upstream r).0 d
        (find_upstream upstream r).1 w' ne same above)
