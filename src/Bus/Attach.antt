-- ===== src/Bus/Attach.antt =====
-- `AddConnection` keeps bindings and lists in agreement.
use libatbus_go.Base.{
  ℕ, ◌≡◌, ◌≢◌, refl, sym, ap, ap₂, ◌∙◌, arith, subst, ◌⊎◌, [], ◌∷◌, ◌++◌, Option, none, some, Bool,
  true, false, ◌||◌, Bool-cases, Option-cases, inl, inr,
}
use libatbus_go.Base.{◌==◌, ==_iff, ==-refl, if◌then◌else◌}
use libatbus_go.Bus.Types.{
  Endpoint, connection_sorted, Store, same_state, handshaking, connected, same_pointer, is_some,
  has, get_flag, ep_resetting, write_endpoint, set_connection_binding, set_connection_status,
}
use libatbus_go.Bus.Endpoint.{members, attach, finish_handshake, add_connection}
use libatbus_go.Bus.Members.{==-comm, has-attach, distinct-attach, get_flag-attach}
use libatbus_go.Bus.Consistent.{
  Agrees, SameResets, SameBindings, SameBindings-Agrees, SameBindings-refl, if-SameBindings,
  write-SameBindings,
}

finish_handshake-SameBindings : (c : ℕ) (s : Store) → SameBindings s (finish_handshake c s)
finish_handshake-SameBindings c s =
    if-SameBindings (same_state (s.connection c).status handshaking) s
      (set_connection_status c connected s) s
      (write-SameBindings c (record (s.connection c) { status = connected }) s refl)
      (SameBindings-refl s)

abbrev attached : ℕ → ℕ → Bool → Store → Store
attached e c force s =
    set_connection_binding c (some e) (write_endpoint e (attach force c (s.endpoint e)) s)

attached-bound :
    (e c e' x : ℕ) (force : Bool) (s : Store)
    → Agrees s
    → (s.connection c).binding ≡ none
    → has x (members ((attached e c force s).endpoint e'))
      ≡ same_pointer ((attached e c force s).connection x).binding (some e')
attached-bound e c e' x force s ok free =
    let grown = has-attach force x c (s.endpoint e) in
    elim (Bool-cases (e' == e)) [
      | inl he ↦
          let same : e' ≡ e = (==_iff e' e).0 he in
          elim (Bool-cases (x == c)) [
            | inl hx ↦ rw (he, hx) (ground (arith, grown, he, hx))
            | inr hx ↦
                rw (he, hx)
                  (grown
                    ∙ ap (λ b. has x (members (s.endpoint e)) || b) (==-comm c x ∙ hx)
                    ∙ or_false (has x (members (s.endpoint e)))
                    ∙ ok.listed e x
                    ∙ ap (λ k. same_pointer (s.connection x).binding (some k)) (sym same))
          ]
      | inr he ↦ elim (Bool-cases (x == c)) [
        | inl hx ↦
            rw (he, hx)
              (ok.listed e' x
                ∙ ap (λ k. same_pointer (s.connection k).binding (some e')) ((==_iff x c).0 hx)
                ∙ ap (λ b. same_pointer b (some e')) free
                ∙ sym (==-comm e e' ∙ he))
        | inr hx ↦ rw (he, hx) (ok.listed e' x)
      ]
    ]
  where
    or_false : (b : Bool) → (b || false) ≡ b
    or_false true = refl
    or_false false = refl

attached-Agrees :
    (e c : ℕ) (force : Bool) (s : Store)
    → Agrees s
    → (s.connection c).binding ≡ none
    → Agrees (attached e c force s)
attached-Agrees e c force s ok free =
    let absent : has c (members (s.endpoint e)) ≡ false =
      ok.listed e c ∙ ap (λ b. same_pointer b (some e)) free in
    record {
      listed = λ e' x. attached-bound e c e' x force s ok free;
      single = λ e'. elim (Bool-cases (e' == e)) [
        | inl he ↦ rw he (distinct-attach force c (s.endpoint e) (ok.single e) absent)
        | inr he ↦ rw he (ok.single e')
      ];
    }

attached-SameResets : (e c : ℕ) (force : Bool) (s : Store) → SameResets s (attached e c force s)
attached-SameResets e c force s e' = elim (Bool-cases (e' == e)) [
  | inl he ↦ rw he (
      get_flag-attach force c (s.endpoint e)
      ∙ ap (λ k. get_flag ep_resetting (s.endpoint k)) (sym ((==_iff e' e).0 he)))
  | inr he ↦ rw he refl
]

abbrev add_cases : ℕ → ℕ → Bool → Store → Bool → Option ℕ → Bool × Store
add_cases e c force s flag bound =
    if flag
    then (false, s)
    else if same_pointer bound (some e)
    then (true, finish_handshake c s)
    else if is_some bound
    then (false, s)
    else (true, finish_handshake c (attached e c force s))

-- An endpoint has a new connection: as its control connection where it had none and data is not forced,
-- else behind its data connections, which are no longer sorted.
abbrev pub Joined : Bool → ℕ → Endpoint → Endpoint → Type 0
Joined force c old new =
    ((force ≡ false)
      × (old.ctrl_conn ≡ none)
      × (new.ctrl_conn ≡ some c)
      × (new.data_conn ≡ old.data_conn))
    ⊎ (((force ≡ true) ⊎ ((k : ℕ) × (old.ctrl_conn ≡ some k)))
        × (new.ctrl_conn ≡ old.ctrl_conn)
        × (new.data_conn ≡ old.data_conn ++ (c ∷ []))
        × (get_flag connection_sorted new ≡ false))

-- What `AddConnection` answers: false, with the store as it was, where the endpoint is being reset or
-- the connection is bound to another endpoint; else true, and the connection is bound to this one,
-- which it has joined unless it was there before.
abbrev pub Added : Bool → ℕ → ℕ → Store → Bool × Store → Type 0
Added force e c s r =
    Agrees (r.1)
    × SameResets s (r.1)
    × (((get_flag ep_resetting (s.endpoint e) ≡ true) × (r ≡ (false, s)))
        ⊎ (((get_flag ep_resetting (s.endpoint e) ≡ false)
              × (k : ℕ) × ((s.connection c).binding ≡ some k)
              × (k ≢ e)
              × (r ≡ (false, s)))
            ⊎ ((get_flag ep_resetting (s.endpoint e) ≡ false)
                × ((((s.connection c).binding ≡ none)
                      × Joined force c (s.endpoint e) ((r.1).endpoint e))
                    ⊎ (((s.connection c).binding ≡ some e) × ((r.1).endpoint ≡ s.endpoint)))
                × (r.0 ≡ true)
                × (((r.1).connection c).binding ≡ some e))))

SameBindings-SameResets : (s t : Store) → SameBindings s t → SameResets s t
SameBindings-SameResets s t same e = ap (λ h. get_flag ep_resetting (h e)) same.endpoints

attach-Joined :
    (force : Bool) (c : ℕ) (ep : Endpoint) (o : Option ℕ)
    → ep.ctrl_conn ≡ o
    → Joined force c ep (attach force c ep)
attach-Joined true c ep o e = inr (inl refl, refl, refl, refl)
attach-Joined false c ep none e = rw e (inl (refl, refl, refl, refl))
attach-Joined false c ep (some k) e = rw e (inr (inr (k, refl), refl, refl, refl))

add_free :
    (e c : ℕ) (force : Bool) (s : Store)
    → Agrees s
    → get_flag ep_resetting (s.endpoint e) ≡ false
    → (s.connection c).binding ≡ none
    → Added force e c s (true, finish_handshake c (attached e c force s))
add_free e c force s ok idle free =
    let t = attached e c force s in
    let same = finish_handshake-SameBindings c t in
    let joined =
      subst (Joined force c (s.endpoint e)) (sym (ap (λ h. h e) same.endpoints))
        (rw (==-refl e) (attach-Joined force c (s.endpoint e) (s.endpoint e).ctrl_conn refl)) in
    (
      SameBindings-Agrees t (finish_handshake c t) same (attached-Agrees e c force s ok free),
      λ k.
          SameBindings-SameResets t (finish_handshake c t) same k
          ∙ attached-SameResets e c force s k,
      inr (inr (idle, inl (free, joined), refl, same.bindings c ∙ rw (==-refl c) refl)),
    )

add_own :
    (e c : ℕ) (force : Bool) (s : Store)
    → Agrees s
    → get_flag ep_resetting (s.endpoint e) ≡ false
    → (s.connection c).binding ≡ some e
    → Added force e c s (true, finish_handshake c s)
add_own e c force s ok idle own =
    let same = finish_handshake-SameBindings c s in
    (
      SameBindings-Agrees s (finish_handshake c s) same ok,
      SameBindings-SameResets s (finish_handshake c s) same,
      inr (inr (idle, inr (own, same.endpoints), refl, same.bindings c ∙ own)),
    )

-- `AddConnection`, in a store where bindings and lists agree, amidst resets or not, keeps that, and
-- which endpoints are being reset. Where this endpoint is being reset, or the connection is bound to
-- another one, the answer is false and the store as it was. Otherwise the answer is true, and the
-- connection is bound to this endpoint. If it was not bound before, it is now the endpoint's control
-- connection where there was none and data is not forced, and else the last of its data connections,
-- which no longer count as sorted; the other one of the two stays. If it was, no endpoint changes.
pub add_connection_lem :
    (e c : ℕ) (force_data : Bool) (s : Store)
    → Agrees s
    → Added force_data e c s (add_connection e c force_data s)
unfolding add_connection
add_connection_lem e c force s ok = elim (Bool-cases (get_flag ep_resetting (s.endpoint e))) [
  | inl busy ↦
      subst (Added force e c s)
        (sym (ap (λ b. add_cases e c force s b (s.connection c).binding) busy))
        (ok, (λ k. refl), inl (busy, refl))
  | inr idle ↦ elim (Option-cases (s.connection c).binding) [
    | inl free ↦
        subst (Added force e c s) (sym (ap₂ (add_cases e c force s) idle free))
          (add_free e c force s ok idle free)
    | inr (k, taken) ↦
        subst (Added force e c s) (sym (ap₂ (add_cases e c force s) idle taken))
          (elim (Bool-cases (k == e)) [
            | inl own ↦
                rw own (add_own e c force s ok idle (taken ∙ ap (λ x. some x) ((==_iff k e).0 own)))
            | inr other ↦ rw other (
              ok,
              (λ k. refl),
              inr (inl (idle, k, taken, (λ p. absurd (ground (arith, p, other))), refl)),
            )
          ])
  ]
]
