-- ===== src/Bus/Remove.antt =====
-- `RemoveConnection` and `Reset` of a connection keep bindings and lists in agreement.
use libatbus_go.Base.{
  ℕ, suc, ◌≡◌, ◌≢◌, refl, sym, ap, ◌∙◌, arith, subst, ◌⊎◌, List, [], ◌∷◌, Option, none, some, Bool,
  true, false, Bool-cases, inl, inr, length,
}
use libatbus_go.Base.{◌==◌, ==_iff, ==-refl, if◌then◌else◌}
use libatbus_go.Bus.Types.{Store, resetting, no_statistic, same_pointer, has, check_flag}
use libatbus_go.Bus.Endpoint.{
  without, members_of, members, start_reset, complete_reset, remove_connection, reset_connection,
}
use libatbus_go.Bus.Reset.{
  endpoint_reset, removed, released, remove_connection_lem, connection_reset, reset_connection_lem,
}
use libatbus_go.Bus.Consistent.{Consistent, SameBindings-Consistent}
use libatbus_go.Bus.Emptied.{
  Emptied, start-SameBindings, complete-SameBindings, endpoint_reset-Emptied, Emptied-Consistent,
}
use libatbus_go.Bus.Unlinked.{unlinked, unlinked-Consistent}

-- What `RemoveConnection` answers: false where the connection is not bound to the endpoint;
-- otherwise true, and the connection is unbound. The endpoint loses all its connections where it was
-- the control connection, or the last data connection, and only this one where it was neither.
abbrev pub Removed : ℕ → ℕ → Store → Bool × Store → Type 0
Removed e c s r =
    let ep = s.endpoint e in
    Consistent (r.1)
    × (((same_pointer (s.connection c).binding (some e) ≡ false) × (r ≡ (false, s)))
        ⊎ ((same_pointer (s.connection c).binding (some e) ≡ true)
            × (r.0 ≡ true)
            × (((r.1).connection c).binding ≡ none)
            × ((((same_pointer (some c) ep.ctrl_conn ≡ true) ⊎ (without c ep.data_conn ≡ []))
                  × (members ((r.1).endpoint e) ≡ []))
                ⊎ ((same_pointer (some c) ep.ctrl_conn ≡ false)
                    × (without c ep.data_conn ≢ [])
                    × (members ((r.1).endpoint e)
                        ≡ members_of ep.ctrl_conn (without c ep.data_conn))))))

pointer_is : (b : Option ℕ) (e : ℕ) → same_pointer b (some e) ≡ true → b ≡ some e
pointer_is none e h = absurd (ground (arith, h))
pointer_is (some k) e h = ap (λ x. some x) ((==_iff k e).0 h)

no_length : (xs : List ℕ) → (length xs == 0) ≡ true → xs ≡ []
no_length [] h = refl
no_length (x ∷ xs) h = absurd (ground (arith, h))

some_left : (xs : List ℕ) → (length xs == 0) ≡ false → xs ≢ []
some_left xs h p = absurd (ground (arith, h, ap length p))

is_data :
    (c : ℕ) (ctrl : Option ℕ) (cs : List ℕ)
    → has c (members_of ctrl cs) ≡ true
    → same_pointer (some c) ctrl ≡ false
    → has c cs ≡ true
is_data c none cs h n = h
is_data c (some k) cs h n = ground (arith, h, n)

-- The endpoint is reset: in the store as it is, or after its last data connection is taken out.
after_reset :
    (e c : ℕ) (s t : Store)
    → Consistent s
    → Emptied e s t
    → (has c (members (s.endpoint e)) ≡ true) ⊎ ((s.connection c).binding ≡ none)
    → Consistent t × ((t.connection c).binding ≡ none) × (members (t.endpoint e) ≡ [])
after_reset e c s t ok h gone = (
  Emptied-Consistent e s t ok h,
  h.bindings c ∙ left (has c (members (s.endpoint e))) gone,
  h.no_members,
)
  where
    left :
        (b : Bool)
        → (b ≡ true) ⊎ ((s.connection c).binding ≡ none)
        → (if b then none else (s.connection c).binding) ≡ none
    left true _ = refl
    left false (inl p) = absurd (ground (arith, p))
    left false (inr p) = p

removed_ctrl :
    (e c : ℕ) (s : Store)
    → Consistent s
    → same_pointer (s.connection c).binding (some e) ≡ true
    → same_pointer (some c) (s.endpoint e).ctrl_conn ≡ true
    → Removed e c s (removed e c s)
removed_ctrl e c s ok own is_ctrl =
    let t = endpoint_reset e s in
    let answer : removed e c s ≡ (true, t) = rw (own, ok.idle e, is_ctrl) refl in
    let (ok', free, none_left) =
      after_reset e c s t ok (endpoint_reset-Emptied e s (ok.idle e)) (inl (ok.bound e c ∙ own)) in
    subst (Removed e c s) (sym answer) (ok', inr (own, refl, free, inl (inl is_ctrl, none_left)))

removed_data :
    (e c : ℕ) (s : Store)
    → Consistent s
    → same_pointer (s.connection c).binding (some e) ≡ true
    → same_pointer (some c) (s.endpoint e).ctrl_conn ≡ false
    → Removed e c s (removed e c s)
removed_data e c s ok own not_ctrl =
    let ep = s.endpoint e in
    let left = without c ep.data_conn in
    let s' = unlinked e c s in
    let ok' = unlinked-Consistent e c s ok (pointer_is (s.connection c).binding e own) not_ctrl in
    let there = is_data c ep.ctrl_conn ep.data_conn (ok.bound e c ∙ own) not_ctrl in
    let free : (s'.connection c).binding ≡ none = rw (==-refl c) refl in
    elim (Bool-cases (length left == 0)) [
      | inl last ↦
          let t = endpoint_reset e s' in
          let answer : removed e c s ≡ (true, t) =
            rw (own, ok.idle e, not_ctrl, there, last) refl in
          let (ok'', free', none_left) =
            after_reset e c s' t ok' (endpoint_reset-Emptied e s' (ok'.idle e)) (inr free) in
          subst (Removed e c s) (sym answer)
            (ok'', inr (own, refl, free', inl (inr (no_length left last), none_left)))
      | inr more ↦
          let answer : removed e c s ≡ (true, s') =
            rw (own, ok.idle e, not_ctrl, there, more) refl in
          subst (Removed e c s) (sym answer)
            (ok', inr (own, refl, free, inr (not_ctrl, some_left left more, rw (==-refl e) refl)))
    ]

removed-Removed : (e c : ℕ) (s : Store) → Consistent s → Removed e c s (removed e c s)
removed-Removed e c s ok = elim (Bool-cases (same_pointer (s.connection c).binding (some e))) [
  | inr foreign ↦
      let answer : removed e c s ≡ (false, s) = rw foreign refl in
      subst (Removed e c s) (sym answer) (ok, inl (foreign, refl))
  | inl own ↦ elim (Bool-cases (same_pointer (some c) (s.endpoint e).ctrl_conn)) [
    | inl is_ctrl ↦ removed_ctrl e c s ok own is_ctrl
    | inr not_ctrl ↦ removed_data e c s ok own not_ctrl
  ]
]

-- `RemoveConnection` in a store where no endpoint is being reset, and bindings and lists agree, ends
-- and keeps both. If the
-- connection is not bound to the endpoint, the answer is false and the store as it was. Otherwise it
-- is true, the connection is unbound, and the endpoint loses all its connections where this was its
-- control connection or its last data connection, and only this one where it was neither.
pub remove_connection-Removed :
    (fuel e c : ℕ) (s : Store)
    → Consistent s
    → ((r : Bool × Store) × (remove_connection (suc fuel) e c s ≡ some r) × Removed e c s r)
remove_connection-Removed fuel e c s ok =
    (removed e c s, remove_connection_lem fuel e c s, removed-Removed e c s ok)

-- What is left after the binding of a connection has been seen to.
let_go :
    (c e : ℕ) (s : Store) (r : Bool × Store)
    → (s.connection c).binding ≡ some e
    → Removed e c s r
    → Consistent (r.1) × (((r.1).connection c).binding ≡ none)
let_go c e s r own (ok, inl (foreign, _)) =
    absurd (ground (arith, ap (λ b. same_pointer b (some e)) own, foreign))
let_go c e s r own (ok, inr (_, _, free, _)) = (ok, free)

complete-Consistent :
    (bound : Option ℕ) (c : ℕ) (s : Store)
    → Consistent s × ((s.connection c).binding ≡ none)
    → Consistent (complete_reset bound c s)
      × (((complete_reset bound c s).connection c).binding ≡ none)
complete-Consistent bound c s (ok, free) =
    let same = complete-SameBindings bound c s in
    (SameBindings-Consistent s (complete_reset bound c s) same ok, same.bindings c ∙ free)

connection_reset-Consistent :
    (c : ℕ) (s : Store)
    → Consistent s
    → check_flag resetting (s.connection c) ≡ false
    → Consistent (connection_reset c s) × (((connection_reset c s).connection c).binding ≡ none)
connection_reset-Consistent c s ok fresh =
    let bound = (s.connection c).binding in
    let t = complete_reset bound c (released c bound s) in
    subst
      (λ b. Consistent (if b then s else t) × (((if b then s else t).connection c).binding ≡ none))
      (sym fresh) (complete-Consistent bound c (released c bound s) (let_go_of bound refl))
  where
    let_go_of :
        (b : Option ℕ)
        → (s.connection c).binding ≡ b
        → Consistent (released c b s) × (((released c b s).connection c).binding ≡ none)
    let_go_of b own =
        let started = start_reset c s in
        let same = start-SameBindings c s in
        let ok' = SameBindings-Consistent s started same ok in
        let own' = same.bindings c ∙ own in by_binding b own' ok'
      where
        by_binding :
            (b : Option ℕ)
            → ((start_reset c s).connection c).binding ≡ b
            → Consistent (start_reset c s)
            → Consistent (released c b s) × (((released c b s).connection c).binding ≡ none)
        by_binding none own ok' = (ok', own)
        by_binding (some e) own ok' =
            let_go c e (start_reset c s) (removed e c (start_reset c s)) own
              (removed-Removed e c (start_reset c s) ok')

-- `Reset` of a connection that is not being reset, in a store where no endpoint is being reset, and
-- bindings and lists agree, ends and keeps both; the connection is unbound, and its flags and statistics are cleared.
pub reset_connection-Consistent :
    (fuel c : ℕ) (s : Store)
    → Consistent s
    → check_flag resetting (s.connection c) ≡ false
    → ((t : Store) × (reset_connection (suc (suc fuel)) c s ≡ some t)
        × Consistent t
        × ((t.connection c).binding ≡ none)
        × ((t.connection c).flags ≡ (λ f. false))
        × ((t.connection c).statistic ≡ no_statistic))
reset_connection-Consistent fuel c s ok fresh =
    let (ok', free) = connection_reset-Consistent c s ok fresh in
    (
      connection_reset c s,
      reset_connection_lem fuel c s,
      ok',
      free,
      rw (fresh, ==-refl c) refl,
      rw (fresh, ==-refl c) refl,
    )
