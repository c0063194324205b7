-- ===== src/Bus/Endpoint.antt =====
-- impl/atbus_endpoint.go: the connections of an endpoint, and `Reset` of both kinds of objects, which
-- call each other. The answer is none where the fuel runs out. The lock is not modelled: an operation
-- is one step.
use libatbus_go.Base.{
  ℕ, zero, suc, List, [], ◌∷◌, ◌++◌, Option, none, some, Bool, true, false, not, ◌||◌, length,
}
use libatbus_go.Base.{◌==◌, ltb, leb, if◌then◌else◌}
use libatbus_go.Bus.Types.{
  connected, handshaking, same_state, resetting, EndpointFlag, endpoint_flag_value, ep_resetting,
  connection_sorted, mutable_flags, has_ping_timer, no_statistic, Connection, Endpoint, Store,
  remove_connection_timer, add_connection_gc_list, on_disconnect, remove_ping_timer, add_ping_timer,
  add_endpoint_gc_list, same_pointer, is_some, write_connection, write_endpoint, call, check_flag,
  set_connection_flag, get_flag, set_endpoint_flag, has, set_connection_binding,
  set_connection_status, and_then,
}

-- `SetFlag`
unfoldable pub set_flag : EndpointFlag → Bool → Endpoint → Endpoint
set_flag f v e =
    if ltb (endpoint_flag_value f) (endpoint_flag_value mutable_flags)
    then e
    else set_endpoint_flag f v e

-- `AddConnection`: a handshake that comes here is complete.
abbrev pub finish_handshake : ℕ → Store → Store
finish_handshake c s =
    if same_state (s.connection c).status handshaking
    then set_connection_status c connected s
    else s

abbrev pub attach : Bool → ℕ → Endpoint → Endpoint
attach force_data c e =
    if force_data || is_some e.ctrl_conn
    then set_endpoint_flag connection_sorted false
        (record e { data_conn = e.data_conn ++ (c ∷ []) })
    else record e { ctrl_conn = some c }

unfoldable pub add_connection : ℕ → ℕ → Bool → Store → Bool × Store
add_connection e c force_data s =
    let ep = s.endpoint e in
    let bound = (s.connection c).binding in
    if get_flag ep_resetting ep
    then (false, s)
    else if same_pointer bound (some e)
    then (true, finish_handshake c s)
    else if is_some bound
    then (false, s)
    else (
      true,
      finish_handshake c
          (set_connection_binding c (some e) (write_endpoint e (attach force_data c ep) s)),
    )

-- `append(dataConn[:idx], dataConn[idx+1:]...)`, with the first place of the connection
unfoldable pub without : ℕ → List ℕ → List ℕ
without c [] = []
without c (x ∷ xs) = if x == c then xs else x ∷ without c xs

-- `RemoveConnection`, with `Reset` of the endpoint as `reset`
unfoldable pub remove_with : (Store → Option Store) → ℕ → ℕ → Store → Option (Bool × Store)
remove_with reset e c s =
    let ep = s.endpoint e in
    let left = without c ep.data_conn in
    let s' = write_endpoint e (record ep { data_conn = left }) (set_connection_binding c none s) in
    if not (same_pointer (s.connection c).binding (some e))
    then some (false, s)
    else if get_flag ep_resetting ep
    then some (true, set_connection_binding c none s)
    else if same_pointer (some c) ep.ctrl_conn
    then and_then (reset s) (λ t. some (true, t))
    else if not (has c ep.data_conn)
    then some (false, s)
    else if length left == 0
    then and_then (reset s') (λ t. some (true, t))
    else some (true, s')

-- `ClearPingTimer`
unfoldable pub clear_ping_timer : ℕ → Store → Store
clear_ping_timer e s =
    let s1 = call (remove_ping_timer e) s in
    if not (get_flag has_ping_timer (s.endpoint e))
    then s
    else write_endpoint e (set_flag has_ping_timer false (s1.endpoint e)) s1

-- `AddPingTimer`, with the id of the node, the time of the next ping, the interval, 0 for one that is
-- not positive, and whether the node resets
unfoldable pub add_ping : ℕ → ℕ → ℕ → Bool → ℕ → Store → Store
add_ping node_id next interval node_resetting e s =
    let s1 = clear_ping_timer e s in
    let s2 = call (add_ping_timer e next) s1 in
    if (s.endpoint e).id == node_id
    then s
    else if leb interval 0
    then s
    else if node_resetting
    then s
    else if get_flag ep_resetting (s1.endpoint e)
    then s1
    else write_endpoint e (set_flag has_ping_timer true (s2.endpoint e)) s2

-- `Endpoint.Reset`, with `Reset` of a connection as `reset`: first the control connection, then the
-- data connections.
unfoldable pub reset_members : (ℕ → Store → Option Store) → List ℕ → Store → Option Store
reset_members reset [] s = some s
reset_members reset (c ∷ cs) s =
    and_then (reset c (set_connection_binding c none s)) (reset_members reset cs)

abbrev pub members_of : Option ℕ → List ℕ → List ℕ
members_of none cs = cs
members_of (some c) cs = c ∷ cs

abbrev pub members : Endpoint → List ℕ
members e = members_of e.ctrl_conn e.data_conn

abbrev pub emptied : Endpoint → Endpoint
emptied e = record (set_endpoint_flag ep_resetting true e) {
  ctrl_conn = none;
  data_conn = [];
  listen_address = [];
}

abbrev pub finish_reset : ℕ → Store → Store
finish_reset e s =
    let s1 = call (add_endpoint_gc_list e) (clear_ping_timer e s) in
    write_endpoint e (record (s1.endpoint e) { endpoint_flags = λ f. false }) s1

unfoldable pub reset_endpoint_with : (ℕ → Store → Option Store) → ℕ → Store → Option Store
reset_endpoint_with reset e s =
    let ep = s.endpoint e in
    let rest =
      and_then (reset_members reset (members ep) (write_endpoint e (emptied ep) s))
        (λ t. some (finish_reset e t)) in
    if get_flag ep_resetting ep then some s else rest

-- `Connection.Reset`
abbrev pub start_reset : ℕ → Store → Store
start_reset c s =
    call (remove_connection_timer c)
      (write_connection c (set_connection_flag resetting true (s.connection c)) s)

abbrev pub complete_reset : Option ℕ → ℕ → Store → Store
complete_reset bound c s =
    let s1 = call (add_connection_gc_list c) s in
    let cleared : Connection = record (s1.connection c) {
      flags = λ f. false;
      statistic = no_statistic;
    } in
    call (on_disconnect bound c) (write_connection c cleared s1)

-- With the call of `RemoveConnection` of the endpoint as `remove`
abbrev pub reset_bound :
    (ℕ → ℕ → Store → Option (Bool × Store)) → Option ℕ → ℕ → Store → Option Store
reset_bound remove none c s = some s
reset_bound remove (some e) c s = and_then (remove e c s) (λ t. some (t.1))

unfoldable pub reset_connection : ℕ → ℕ → Store → Option Store
reset_connection zero c s = none
reset_connection (suc fuel) c s =
    let bound = (s.connection c).binding in
    let rest =
      and_then
        (reset_bound (λ e. remove_with (reset_endpoint_with (reset_connection fuel) e) e) bound c
          (start_reset c s))
        (λ t. some (complete_reset bound c t)) in
    if check_flag resetting (s.connection c) then some s else rest

abbrev pub reset_endpoint : ℕ → ℕ → Store → Option Store
reset_endpoint fuel = reset_endpoint_with (reset_connection fuel)

abbrev pub remove_connection : ℕ → ℕ → ℕ → Store → Option (Bool × Store)
remove_connection fuel e = remove_with (reset_endpoint fuel e) e
