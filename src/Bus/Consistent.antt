-- ===== src/Bus/Consistent.antt =====
-- The bindings of the connections agree with the lists of the endpoints.
use libatbus_go.Base.{ℕ, ◌≡◌, refl, sym, ap, ◌∙◌, some, Bool, true, false, Bool-cases, inl, inr}
use libatbus_go.Base.{◌==◌, ==_iff, if◌then◌else◌}
use libatbus_go.Bus.Types.{
  Connection, Store, same_pointer, has, get_flag, ep_resetting, write_connection,
}
use libatbus_go.Bus.Endpoint.{members}
use libatbus_go.Bus.Members.{distinct}

-- No endpoint is in the midst of a reset; an endpoint has those connections, once each, that are
-- bound to it.
pub record Consistent (s : Store) : Type 0 where
  pub idle : (e : ℕ) → get_flag ep_resetting (s.endpoint e) ≡ false
  pub bound :
      (e c : ℕ) → has c (members (s.endpoint e)) ≡ same_pointer (s.connection c).binding (some e)
  pub once : (e : ℕ) → distinct (members (s.endpoint e)) ≡ true

-- An endpoint has those connections, once each, that are bound to it, also amidst a reset.
pub record Agrees (s : Store) : Type 0 where
  pub listed :
      (e c : ℕ) → has c (members (s.endpoint e)) ≡ same_pointer (s.connection c).binding (some e)
  pub single : (e : ℕ) → distinct (members (s.endpoint e)) ≡ true

pub Consistent-Agrees : (s : Store) → Consistent s → Agrees s
Consistent-Agrees s ok = record { listed = ok.bound; single = ok.once }

-- The same endpoints are being reset.
abbrev pub SameResets : Store → Store → Type 0
SameResets s t =
    (e : ℕ) → get_flag ep_resetting (t.endpoint e) ≡ get_flag ep_resetting (s.endpoint e)

pub Agrees-Consistent : (s t : Store) → Consistent s → Agrees t → SameResets s t → Consistent t
Agrees-Consistent s t ok agrees same = record {
  idle = λ e. same e ∙ ok.idle e;
  bound = agrees.listed;
  once = agrees.single;
}

-- A store that differs only in what a binding does not tell.
pub record SameBindings (s t : Store) : Type 0 where
  pub endpoints : t.endpoint ≡ s.endpoint
  pub bindings : (x : ℕ) → (t.connection x).binding ≡ (s.connection x).binding

pub SameBindings-Consistent : (s t : Store) → SameBindings s t → Consistent s → Consistent t
SameBindings-Consistent s t same ok = record {
  idle = λ e. ap (λ h. get_flag ep_resetting (h e)) same.endpoints ∙ ok.idle e;
  bound = λ e c.
      ap (λ h. has c (members (h e))) same.endpoints
      ∙ ok.bound e c
      ∙ ap (λ b. same_pointer b (some e)) (sym (same.bindings c));
  once = λ e. ap (λ h. distinct (members (h e))) same.endpoints ∙ ok.once e;
}

pub SameBindings-Agrees : (s t : Store) → SameBindings s t → Agrees s → Agrees t
SameBindings-Agrees s t same ok = record {
  listed = λ e c.
      ap (λ h. has c (members (h e))) same.endpoints
      ∙ ok.listed e c
      ∙ ap (λ b. same_pointer b (some e)) (sym (same.bindings c));
  single = λ e. ap (λ h. distinct (members (h e))) same.endpoints ∙ ok.single e;
}

pub SameBindings-trans : (s t u : Store) → SameBindings s t → SameBindings t u → SameBindings s u
SameBindings-trans s t u a b = record {
  endpoints = b.endpoints ∙ a.endpoints;
  bindings = λ x. b.bindings x ∙ a.bindings x;
}

pub write-SameBindings :
    (c : ℕ) (v : Connection) (s : Store)
    → v.binding ≡ (s.connection c).binding
    → SameBindings s (write_connection c v s)
write-SameBindings c v s e = record {
  endpoints = refl;
  bindings = λ x. elim (Bool-cases (x == c)) [
    | inl h ↦ rw h (e ∙ ap (λ y. (s.connection y).binding) (sym ((==_iff x c).0 h)))
    | inr h ↦ rw h refl
  ];
}

pub SameBindings-refl : (s : Store) → SameBindings s s
SameBindings-refl s = record { endpoints = refl; bindings = λ x. refl }

pub if-SameBindings :
    (b : Bool) (s t u : Store)
    → SameBindings s t
    → SameBindings s u
    → SameBindings s (if b then t else u)
if-SameBindings true s t u ht hu = ht
if-SameBindings false s t u ht hu = hu
