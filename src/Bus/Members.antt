-- ===== src/Bus/Members.antt =====
-- The connections of an endpoint, as a list, and what the operations on it do to the list.
use libatbus_go.Base.{
  ℕ, ◌≡◌, refl, ap, ◌∙◌, arith, List, [], ◌∷◌, ◌++◌, Option, none, some, Bool, true, false, not,
  ◌&&◌, ◌||◌, Bool-cases, inl, inr,
}
use libatbus_go.Base.{◌==◌, if◌then◌else◌}
use libatbus_go.Bus.Types.{Endpoint, same_pointer, is_some, has, get_flag, ep_resetting}
use libatbus_go.Bus.Endpoint.{without, members_of, members, attach}

abbrev pub distinct : List ℕ → Bool
distinct [] = true
distinct (x ∷ xs) = not (has x xs) && distinct xs

pub ==-comm : (a b : ℕ) → (a == b) ≡ (b == a)
==-comm a b = ground arith

has-append : (x c : ℕ) (xs : List ℕ) → has x (xs ++ (c ∷ [])) ≡ (has x xs || (c == x))
has-append x c [] = ground arith
has-append x c (y ∷ xs) = ground (arith, has-append x c xs)

distinct-append :
    (c : ℕ) (xs : List ℕ) → distinct xs ≡ true → has c xs ≡ false → distinct (xs ++ (c ∷ [])) ≡ true
distinct-append c [] d h = refl
distinct-append c (x ∷ xs) d h = ground (arith, d, h, has-append x c xs, distinct-append c xs)

has-without :
    (x c : ℕ) (xs : List ℕ) → distinct xs ≡ true → has x (without c xs) ≡ (has x xs && not (x == c))
unfolding without
has-without x c [] d = refl
has-without x c (y ∷ xs) d = ground (arith, d, has-without x c xs)

distinct-without : (c : ℕ) (xs : List ℕ) → distinct xs ≡ true → distinct (without c xs) ≡ true
unfolding without
distinct-without c [] d = refl
distinct-without c (y ∷ xs) d = ground (arith, d, has-without y c xs, distinct-without c xs)

joined_members : Bool → ℕ → Option ℕ → List ℕ → List ℕ
joined_members force c ctrl cs =
    if force || is_some ctrl then members_of ctrl (cs ++ (c ∷ [])) else members_of (some c) cs

members-attach :
    (force : Bool) (c : ℕ) (e : Endpoint)
    → members (attach force c e) ≡ joined_members force c e.ctrl_conn e.data_conn
unfolding joined_members
members-attach force c e = elim (Bool-cases (force || is_some e.ctrl_conn)) [
  | inl h ↦ rw h refl
  | inr h ↦ rw h refl
]

has-joined :
    (force : Bool) (x c : ℕ) (ctrl : Option ℕ) (cs : List ℕ)
    → has x (joined_members force c ctrl cs) ≡ (has x (members_of ctrl cs) || (c == x))
unfolding joined_members
has-joined true x c none cs = has-append x c cs
has-joined true x c (some k) cs = ground (arith, has-append x c cs)
has-joined false x c none cs = ground arith
has-joined false x c (some k) cs = ground (arith, has-append x c cs)

distinct-joined :
    (force : Bool) (c : ℕ) (ctrl : Option ℕ) (cs : List ℕ)
    → distinct (members_of ctrl cs) ≡ true
    → has c (members_of ctrl cs) ≡ false
    → distinct (joined_members force c ctrl cs) ≡ true
unfolding joined_members
distinct-joined true c none cs d h = distinct-append c cs d h
distinct-joined true c (some k) cs d h = distinct-append c (k ∷ cs) d h
distinct-joined false c none cs d h = ground arith
distinct-joined false c (some k) cs d h = distinct-append c (k ∷ cs) d h

-- A connection that is attached is a member, beside those that were.
pub has-attach :
    (force : Bool) (x c : ℕ) (e : Endpoint)
    → has x (members (attach force c e)) ≡ (has x (members e) || (c == x))
has-attach force x c e =
    ap (has x) (members-attach force c e) ∙ has-joined force x c e.ctrl_conn e.data_conn

pub distinct-attach :
    (force : Bool) (c : ℕ) (e : Endpoint)
    → distinct (members e) ≡ true
    → has c (members e) ≡ false
    → distinct (members (attach force c e)) ≡ true
distinct-attach force c e d h =
    ap distinct (members-attach force c e) ∙ distinct-joined force c e.ctrl_conn e.data_conn d h

pub get_flag-attach :
    (force : Bool) (c : ℕ) (e : Endpoint)
    → get_flag ep_resetting (attach force c e) ≡ get_flag ep_resetting e
get_flag-attach force c e = elim (Bool-cases (force || is_some e.ctrl_conn)) [
  | inl h ↦ rw h refl
  | inr h ↦ rw h refl
]

-- A data connection that is taken out, where it is not the control connection too.
pub has-members_without :
    (x c : ℕ) (ctrl : Option ℕ) (cs : List ℕ)
    → distinct (members_of ctrl cs) ≡ true
    → same_pointer (some c) ctrl ≡ false
    → has x (members_of ctrl (without c cs)) ≡ (has x (members_of ctrl cs) && not (x == c))
has-members_without x c none cs d h = has-without x c cs d
has-members_without x c (some k) cs d h = ground (arith, d, h, has-without x c cs)

pub distinct-members_without :
    (c : ℕ) (ctrl : Option ℕ) (cs : List ℕ)
    → distinct (members_of ctrl cs) ≡ true
    → distinct (members_of ctrl (without c cs)) ≡ true
distinct-members_without c none cs d = distinct-without c cs d
distinct-members_without c (some k) cs d =
    ground (arith, d, has-without k c cs, distinct-without c cs)
