-- ===== src/Bus/Reset.antt =====
-- `Reset` of a connection and of an endpoint end, although they call each other: an object that is
-- being reset, and a connection without a binding, go no further. What they do, without the fuel.
use libatbus_go.Base.{
  ℕ, suc, ◌≡◌, refl, ap, ◌∙◌, List, [], ◌∷◌, Option, none, some, Bool, true, false, not, length,
}
use libatbus_go.Base.{◌==◌, ==-refl, if◌then◌else◌}
use libatbus_go.Bus.Types.{
  resetting, ep_resetting, Store, same_pointer, write_endpoint, check_flag, get_flag, has,
  set_connection_binding, and_then,
}
use libatbus_go.Bus.Endpoint.{
  without, remove_with, reset_members, members, emptied, finish_reset, reset_endpoint_with,
  start_reset, complete_reset, reset_bound, reset_connection, reset_endpoint, remove_connection,
}

if-some {ℓ} :
    {A : Type ℓ} (b : Bool) (x y : A) → (if b then some x else some y) ≡ some (if b then x else y)
if-some true x y = refl
if-some false x y = refl

abbrev pub reset_unbound : ℕ → Store → Store
reset_unbound c s =
    let t = complete_reset none c (start_reset c s) in
    if check_flag resetting (s.connection c) then s else t

reset_connection-unbound :
    (fuel c : ℕ) (s : Store)
    → (s.connection c).binding ≡ none
    → reset_connection (suc fuel) c s ≡ some (reset_unbound c s)
unfolding reset_connection
reset_connection-unbound fuel c s e =
    ap
      (λ b.
        if check_flag resetting (s.connection c)
        then some s
        else (and_then
            (reset_bound (λ e. remove_with (reset_endpoint_with (reset_connection fuel) e) e) b c
              (start_reset c s))
            (λ t. some (complete_reset b c t))))
      e
    ∙ if-some (check_flag resetting (s.connection c)) s (complete_reset none c (start_reset c s))

abbrev pub members_reset : List ℕ → Store → Store
members_reset [] s = s
members_reset (c ∷ cs) s = members_reset cs (reset_unbound c (set_connection_binding c none s))

unbinds : (c : ℕ) (s : Store) → ((set_connection_binding c none s).connection c).binding ≡ none
unbinds c s = rw (==-refl c) refl

reset_members_lem :
    (fuel : ℕ) (cs : List ℕ) (s : Store)
    → reset_members (reset_connection (suc fuel)) cs s ≡ some (members_reset cs s)
unfolding reset_members
reset_members_lem fuel [] s = refl
reset_members_lem fuel (c ∷ cs) s =
    ap (λ o. and_then o (reset_members (reset_connection (suc fuel)) cs))
      (reset_connection-unbound fuel c (set_connection_binding c none s) (unbinds c s))
    ∙ reset_members_lem fuel cs (reset_unbound c (set_connection_binding c none s))

abbrev pub endpoint_reset : ℕ → Store → Store
endpoint_reset e s =
    let ep = s.endpoint e in
    let t = finish_reset e (members_reset (members ep) (write_endpoint e (emptied ep) s)) in
    if get_flag ep_resetting ep then s else t

pub reset_endpoint_lem :
    (fuel e : ℕ) (s : Store) → reset_endpoint (suc fuel) e s ≡ some (endpoint_reset e s)
unfolding reset_endpoint_with
reset_endpoint_lem fuel e s =
    let ep = s.endpoint e in
    let emptied_store = write_endpoint e (emptied ep) s in
    ap (λ o. if get_flag ep_resetting ep then some s else and_then o (λ t. some (finish_reset e t)))
      (reset_members_lem fuel (members ep) emptied_store)
    ∙ if-some (get_flag ep_resetting ep) s
        (finish_reset e (members_reset (members ep) emptied_store))

abbrev pub removed : ℕ → ℕ → Store → Bool × Store
removed e c s =
    let ep = s.endpoint e in
    let left = without c ep.data_conn in
    let s' = write_endpoint e (record ep { data_conn = left }) (set_connection_binding c none s) in
    if not (same_pointer (s.connection c).binding (some e))
    then (false, s)
    else if get_flag ep_resetting ep
    then (true, set_connection_binding c none s)
    else if same_pointer (some c) ep.ctrl_conn
    then (true, endpoint_reset e s)
    else if not (has c ep.data_conn)
    then (false, s)
    else if length left == 0
    then (true, endpoint_reset e s')
    else (true, s')

pub remove_connection_lem :
    (fuel e c : ℕ) (s : Store) → remove_connection (suc fuel) e c s ≡ some (removed e c s)
unfolding remove_with
remove_connection_lem fuel e c s =
    let ep = s.endpoint e in
    let left = without c ep.data_conn in
    let s' = write_endpoint e (record ep { data_conn = left }) (set_connection_binding c none s) in
    cases (not (same_pointer (s.connection c).binding (some e))) (get_flag ep_resetting ep)
      (same_pointer (some c) ep.ctrl_conn) (not (has c ep.data_conn)) (length left == 0) (false, s)
      (true, set_connection_binding c none s) (true, s')
      (ap (λ o. and_then o (λ t. some (true, t))) (reset_endpoint_lem fuel e s))
      (ap (λ o. and_then o (λ t. some (true, t))) (reset_endpoint_lem fuel e s'))
  where
    cases :
        (b1 b2 b3 b4 b5 : Bool) (x y z : Bool × Store) {o p : Option (Bool × Store)}
        {v w : Bool × Store}
        → o ≡ some v
        → p ≡ some w
        → (if b1
            then some x
            else if b2
            then some y
            else if b3
            then o
            else if b4
            then some x
            else if b5
            then p
            else some z)
          ≡ some (
              if b1
              then x
              else if b2
              then y
              else if b3
              then v
              else if b4
              then x
              else if b5
              then w
              else z)
    cases true b2 b3 b4 b5 x y z ho hp = refl
    cases false true b3 b4 b5 x y z ho hp = refl
    cases false false true b4 b5 x y z ho hp = ho
    cases false false false true b5 x y z ho hp = refl
    cases false false false false true x y z ho hp = hp
    cases false false false false false x y z ho hp = refl

abbrev pub released : ℕ → Option ℕ → Store → Store
released c none s = start_reset c s
released c (some e) s = (removed e c (start_reset c s)).1

abbrev pub connection_reset : ℕ → Store → Store
connection_reset c s =
    let bound = (s.connection c).binding in
    let t = complete_reset bound c (released c bound s) in
    if check_flag resetting (s.connection c) then s else t

pub reset_connection_lem :
    (fuel c : ℕ) (s : Store) → reset_connection (suc (suc fuel)) c s ≡ some (connection_reset c s)
unfolding reset_connection
reset_connection_lem fuel c s =
    let b = (s.connection c).binding in
    ap
      (λ o.
        if check_flag resetting (s.connection c)
        then some s
        else and_then o (λ t. some (complete_reset b c t)))
      (bound_lem b)
    ∙ if-some (check_flag resetting (s.connection c)) s _
  where
    bound_lem :
        (b : Option ℕ)
        → reset_bound (remove_connection (suc fuel)) b c (start_reset c s) ≡ some (released c b s)
    bound_lem none = refl
    bound_lem (some e) =
        ap (λ o. and_then o (λ t. some (t.1))) (remove_connection_lem fuel e c (start_reset c s))

-- `Reset` of a connection, `Reset` of an endpoint and `RemoveConnection` end in every store, however
-- the objects are bound: two, one and one nested calls are enough, and with more they answer the same.
pub resets_end :
    (fuel c e : ℕ) (s : Store)
    → ((t : Store) × (reset_connection (suc (suc fuel)) c s ≡ some t)
        × (reset_connection 2 c s ≡ some t))
      × ((t : Store) × (reset_endpoint (suc fuel) e s ≡ some t) × (reset_endpoint 1 e s ≡ some t))
      × ((t : Bool × Store) × (remove_connection (suc fuel) e c s ≡ some t)
          × (remove_connection 1 e c s ≡ some t))
resets_end fuel c e s = (
  (connection_reset c s, reset_connection_lem fuel c s, reset_connection_lem 0 c s),
  (endpoint_reset e s, reset_endpoint_lem fuel e s, reset_endpoint_lem 0 e s),
  (removed e c s, remove_connection_lem fuel e c s, remove_connection_lem 0 e c s),
)
