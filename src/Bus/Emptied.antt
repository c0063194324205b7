-- ===== src/Bus/Emptied.antt =====
-- `Reset` of an endpoint takes all of its connections from it, and leaves the rest of the store.
use libatbus_go.Base.{
  ℕ, ◌≡◌, refl, sym, ap, ap₂, ◌∙◌, arith, subst, List, [], ◌∷◌, Option, none, some, Bool, true,
  false, ◌||◌, Bool-cases, inl, inr,
}
use libatbus_go.Base.{◌==◌, ==_iff, ==-refl, if◌then◌else◌}
use libatbus_go.Bus.Types.{
  Store, resetting, no_statistic, same_pointer, has, get_flag, check_flag, ep_resetting,
  has_ping_timer, set_connection_flag, write_endpoint, set_connection_binding,
}
use libatbus_go.Bus.Endpoint.{
  members, emptied, set_flag, clear_ping_timer, finish_reset, start_reset, complete_reset,
}
use libatbus_go.Bus.Reset.{reset_unbound, members_reset, endpoint_reset}
use libatbus_go.Bus.Members.{distinct, ==-comm}
use libatbus_go.Bus.Consistent.{
  Consistent, SameBindings, SameBindings-refl, SameBindings-trans, if-SameBindings,
  write-SameBindings,
}

pub start-SameBindings : (c : ℕ) (s : Store) → SameBindings s (start_reset c s)
start-SameBindings c s =
    let step = write-SameBindings c (set_connection_flag resetting true (s.connection c)) s refl in
    record { endpoints = step.endpoints; bindings = step.bindings }

pub complete-SameBindings :
    (bound : Option ℕ) (c : ℕ) (s : Store) → SameBindings s (complete_reset bound c s)
complete-SameBindings bound c s =
    let step =
      write-SameBindings c
        (record (s.connection c) { flags = λ f. false; statistic = no_statistic }) s refl in
    record { endpoints = step.endpoints; bindings = step.bindings }

reset_unbound-SameBindings : (c : ℕ) (s : Store) → SameBindings s (reset_unbound c s)
reset_unbound-SameBindings c s =
    let started = start_reset c s in
    if-SameBindings (check_flag resetting (s.connection c)) s s (complete_reset none c started)
      (SameBindings-refl s)
      (SameBindings-trans s started (complete_reset none c started) (start-SameBindings c s)
        (complete-SameBindings none c started))

-- The connections of the list are unbound; the other objects are as they were.
record Unbound (cs : List ℕ) (s t : Store) : Type 0 where
  endpoints : t.endpoint ≡ s.endpoint
  bindings :
      (x : ℕ) → (t.connection x).binding ≡ (if has x cs then none else (s.connection x).binding)

members_reset-Unbound : (cs : List ℕ) (s : Store) → Unbound cs s (members_reset cs s)
members_reset-Unbound [] s = record { endpoints = refl; bindings = λ x. refl }
members_reset-Unbound (c ∷ cs) s =
    let cut = set_connection_binding c none s in
    let step = reset_unbound-SameBindings c cut in
    let rest = members_reset-Unbound cs (reset_unbound c cut) in
    record {
      endpoints = rest.endpoints ∙ step.endpoints;
      bindings = λ x.
          rest.bindings x
          ∙ ap (λ b. if has x cs then none else b) (step.bindings x)
          ∙ unbind_one x c (has x cs);
    }
  where
    unbind_one :
        (x c : ℕ) (b : Bool)
        → (if b then none else ((set_connection_binding c none s).connection x).binding)
          ≡ (if (c == x) || b then none else (s.connection x).binding)
    unbind_one x c b = elim (Bool-cases (x == c)) [
      | inl hx ↦ rw (hx, ==-comm c x, hx) (either_none b)
      | inr hx ↦ rw (hx, ==-comm c x, hx) refl
    ]
      where
        either_none : (b : Bool) → ◌≡◌ {A = Option ℕ} (if b then none else none) none
        either_none true = refl
        either_none false = refl

-- What `Reset` of the endpoint `e` leaves
pub record Emptied (e : ℕ) (s t : Store) : Type 0 where
  pub others : (x : ℕ) → (x == e) ≡ false → t.endpoint x ≡ s.endpoint x
  pub no_members : members (t.endpoint e) ≡ []
  pub idle : get_flag ep_resetting (t.endpoint e) ≡ false
  pub bindings :
      (x : ℕ)
      → (t.connection x).binding
        ≡ (if has x (members (s.endpoint e)) then none else (s.connection x).binding)

-- What the end of the reset does to a store in which the endpoint has been emptied.
clear_ping-members :
    (e : ℕ) (t : Store)
    → (members ((clear_ping_timer e t).endpoint e) ≡ members (t.endpoint e))
      × ((clear_ping_timer e t).connection ≡ t.connection)
unfolding clear_ping_timer set_flag
clear_ping-members e t = elim (Bool-cases (get_flag has_ping_timer (t.endpoint e))) [
  | inl h ↦ rw (h, ==-refl e) (refl, refl)
  | inr h ↦ rw h (refl, refl)
]

clear_ping-others :
    (e x : ℕ) (t : Store) → (x == e) ≡ false → (clear_ping_timer e t).endpoint x ≡ t.endpoint x
unfolding clear_ping_timer set_flag
clear_ping-others e x t hx = elim (Bool-cases (get_flag has_ping_timer (t.endpoint e))) [
  | inl h ↦ rw (h, hx) refl
  | inr h ↦ rw h refl
]

finish-Emptied :
    (e : ℕ) (s t : Store)
    → Unbound (members (s.endpoint e)) (write_endpoint e (emptied (s.endpoint e)) s) t
    → Emptied e s (finish_reset e t)
finish-Emptied e s t h =
    let cleared = clear_ping-members e t in
    record {
      others = λ x hx. rw hx (clear_ping-others e x t hx ∙ ap (λ f. f x) h.endpoints ∙ rw hx refl);
      no_members =
          rw (==-refl e) (cleared.0 ∙ ap (λ f. members (f e)) h.endpoints ∙ rw (==-refl e) refl);
      idle = rw (==-refl e) refl;
      bindings = λ x. ap (λ f. (f x).binding) (cleared.1) ∙ h.bindings x;
    }

pub endpoint_reset-Emptied :
    (e : ℕ) (s : Store)
    → get_flag ep_resetting (s.endpoint e) ≡ false
    → Emptied e s (endpoint_reset e s)
endpoint_reset-Emptied e s idle =
    let start = write_endpoint e (emptied (s.endpoint e)) s in
    let t = members_reset (members (s.endpoint e)) start in
    subst (λ b. Emptied e s (if b then s else finish_reset e t)) (sym idle)
      (finish-Emptied e s t (members_reset-Unbound (members (s.endpoint e)) start))

pub Emptied-Consistent : (e : ℕ) (s t : Store) → Consistent s → Emptied e s t → Consistent t
Emptied-Consistent e s t ok h = record {
  idle = λ x. elim (Bool-cases (x == e)) [
    | inl hx ↦ ap (λ y. get_flag ep_resetting (t.endpoint y)) ((==_iff x e).0 hx) ∙ h.idle
    | inr hx ↦ ap (get_flag ep_resetting) (h.others x hx) ∙ ok.idle x
  ];
  bound = λ x c. elim (Bool-cases (x == e)) [
    | inl hx ↦
        let same = (==_iff x e).0 hx in
        ap (λ y. has c (members (t.endpoint y))) same
        ∙ ap (has c) h.no_members
        ∙ sym (
            ap₂ (λ b y. same_pointer b (some y)) (h.bindings c) same
            ∙ unbound_here (has c (members (s.endpoint e))) (s.connection c).binding (ok.bound e c))
    | inr hx ↦
        ap (λ y. has c (members y)) (h.others x hx)
        ∙ ok.bound x c
        ∙ sym (
            ap (λ b. same_pointer b (some x)) (h.bindings c)
            ∙ unbound_there x hx (has c (members (s.endpoint e))) (s.connection c).binding
                (ok.bound e c))
  ];
  once = λ x. elim (Bool-cases (x == e)) [
    | inl hx ↦
        ap (λ y. distinct (members (t.endpoint y))) ((==_iff x e).0 hx) ∙ ap distinct h.no_members
    | inr hx ↦ ap (λ y. distinct (members y)) (h.others x hx) ∙ ok.once x
  ];
}
  where
    unbound_here :
        (b : Bool) (o : Option ℕ)
        → b ≡ same_pointer o (some e)
        → same_pointer (if b then none else o) (some e) ≡ false
    unbound_here true o p = refl
    unbound_here false o p = sym p

    unbound_there :
        (x : ℕ)
        → (x == e) ≡ false
        → (b : Bool) (o : Option ℕ) → b ≡ same_pointer o (some e)
        → same_pointer (if b then none else o) (some x) ≡ same_pointer o (some x)
    unbound_there x hx true none p = refl
    unbound_there x hx true (some k) p = ground (arith, p, hx)
    unbound_there x hx false o p = refl
