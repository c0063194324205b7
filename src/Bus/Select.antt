-- ===== src/Bus/Select.antt =====
-- impl/atbus_endpoint.go: the state of an endpoint beside its connections, and the connection that is
-- chosen for a message.
use libatbus_go.Base.{
  ℕ, suc, ◌+◌, List, [], ◌∷◌, ◌++◌, Option, none, some, Bool, true, false, not, ◌&&◌, ◌||◌, length,
}
use libatbus_go.Base.{◌==◌, leb, if◌then◌else◌}
use libatbus_go.Address.{
  String, starts_with, same_text, to_lower, make_address, mem_scheme, shm_scheme,
}
use libatbus_go.Bus.Types.{
  connected, disconnected, disconnecting, same_state, access_share_addr, access_share_host,
  connection_sorted, has_listen_proc, has_listen_fd, Connection, Endpoint, Store, write_endpoint,
  check_flag, get_flag, set_endpoint_flag,
}
use libatbus_go.Bus.Connection.{is_running}

-- `CreateEndpoint`, at a time
abbrev pub create_endpoint : ℕ → ℕ → ℕ → String → Endpoint
create_endpoint now id pid hostname = record {
  id = id;
  pid = pid;
  hostname = hostname;
  hash_code = [];
  endpoint_flags = λ f. false;
  ctrl_conn = none;
  data_conn = [];
  listen_address = [];
  supported_schemas = some [];
  stat = record {
    faults = 0;
    unfinished_ping = 0;
    ping_delay = 0;
    last_pong_time = 0;
    created_time = now;
  };
}

-- `UpdateHashCode`
abbrev pub update_hash_code : String → Endpoint → Endpoint
update_hash_code [] e = e
update_hash_code (x ∷ xs) e = record e { hash_code = x ∷ xs }

-- `AddListenAddress`
abbrev pub note_listen : String → Endpoint → Endpoint
note_listen addr e =
    let lower = to_lower addr in
    if starts_with mem_scheme lower || starts_with shm_scheme lower
    then set_endpoint_flag has_listen_proc true e
    else set_endpoint_flag has_listen_fd true e

unfoldable pub add_listen_address : String → Endpoint → Endpoint
add_listen_address [] e = e
add_listen_address (x ∷ xs) e = elim (make_address (x ∷ xs)) [
  | none ↦ note_listen (x ∷ xs) e
  | some parsed ↦
      let e1 = note_listen (x ∷ xs) e in
      record e1 { listen_address = e1.listen_address ++ (parsed ∷ []) }
]

-- `ClearListenAddress`
abbrev pub clear_listen_address : Endpoint → Endpoint
clear_listen_address e =
    set_endpoint_flag has_listen_fd false
      (set_endpoint_flag has_listen_proc false (record e { listen_address = [] }))

-- `UpdateSupportSchemes`: the set keeps the schemes that are not empty.
unfoldable pub some_schemes : List String → List String
some_schemes [] = []
some_schemes (s ∷ ss) = if length s == 0 then some_schemes ss else s ∷ some_schemes ss

unfoldable pub update_support_schemes : List String → Endpoint → Endpoint
update_support_schemes [] e = record e { supported_schemas = none }
update_support_schemes (s ∷ ss) e = record e { supported_schemas = some (some_schemes (s ∷ ss)) }

-- `IsSchemeSupported`
unfoldable pub has_scheme : String → List String → Bool
has_scheme s [] = false
has_scheme s (x ∷ xs) = same_text x s || has_scheme s xs

unfoldable pub is_scheme_supported : String → Endpoint → Bool
is_scheme_supported [] e = false
is_scheme_supported (x ∷ xs) e = elim e.supported_schemas [
  | none ↦ false
  | some schemes ↦ has_scheme (x ∷ xs) schemes
]

-- `IsAvailable`
unfoldable pub any_running : (ℕ → Connection) → List ℕ → Bool
any_running heap [] = false
any_running heap (c ∷ cs) = is_running (heap c) || any_running heap cs

unfoldable pub is_available : (ℕ → Connection) → Endpoint → Bool
is_available heap e = elim e.ctrl_conn [ none ↦ false | some c ↦ any_running heap e.data_conn ]

-- `scoreConnection`
abbrev pub score_connection : Connection → ℕ
score_connection c =
    (if check_flag access_share_addr c then 0 else 8)
    + (if check_flag access_share_host c then 0 else 4)

-- `sort.SliceStable` by the score
unfoldable pub insert_scored : (ℕ → Connection) → ℕ → List ℕ → List ℕ
insert_scored heap c [] = c ∷ []
insert_scored heap c (x ∷ xs) =
    if leb (score_connection (heap c)) (score_connection (heap x))
    then c ∷ x ∷ xs
    else x ∷ insert_scored heap c xs

unfoldable pub sort_scored : (ℕ → Connection) → List ℕ → List ℕ
sort_scored heap [] = []
sort_scored heap (c ∷ cs) = insert_scored heap c (sort_scored heap cs)

-- `GetCtrlConnection`
unfoldable pub get_ctrl_connection : ℕ → ℕ → Store → Option ℕ
get_ctrl_connection e peer s =
    let ctrl : Option ℕ = elim (s.endpoint peer).ctrl_conn [
      | none ↦ none
      | some c ↦ if same_state (s.connection c).status connected then some c else none
    ] in
    if e == peer then none else ctrl

-- The loop of `GetDataConnection`
abbrev pub may_carry : Bool → Bool → Connection → Bool
may_carry share_pid share_host c =
    same_state c.status connected
    && ((share_pid && check_flag access_share_addr c)
        || (share_host && check_flag access_share_host c)
        || not (check_flag access_share_host c))

unfoldable pub first_carrier : (Connection → Bool) → (ℕ → Connection) → List ℕ → Option ℕ
first_carrier ok heap [] = none
first_carrier ok heap (c ∷ cs) = if ok (heap c) then some c else first_carrier ok heap cs

-- `GetDataConnection`
abbrev pub sort_data : (ℕ → Connection) → Endpoint → Endpoint
sort_data heap e =
    if get_flag connection_sorted e
    then e
    else set_endpoint_flag connection_sorted true
        (record e { data_conn = sort_scored heap e.data_conn })

unfoldable pub get_data_connection : ℕ → ℕ → Bool → Store → Option ℕ × Store
get_data_connection e peer enable_fallback s =
    let own = s.endpoint e in
    let other = s.endpoint peer in
    let share_host = same_text other.hostname own.hostname in
    let share_pid = share_host && (other.pid == own.pid) in
    let sorted = sort_data s.connection other in
    let s1 = write_endpoint peer sorted s in
    let found = first_carrier (may_carry share_pid share_host) s.connection sorted.data_conn in
    let fallback = if enable_fallback then get_ctrl_connection e peer s1 else none in
    if e == peer then (none, s) else (elim found [ none ↦ fallback | some c ↦ some c ], s1)

-- `GetDataConnectionCount`
abbrev pub is_counted : Connection → Bool
is_counted c = not (same_state c.status disconnecting || same_state c.status disconnected)

unfoldable pub count_data : (ℕ → Connection) → List ℕ → ℕ
count_data heap [] = 0
count_data heap (c ∷ cs) =
    if is_counted (heap c) then suc (count_data heap cs) else count_data heap cs

unfoldable pub get_data_connection_count : Bool → (ℕ → Connection) → Endpoint → ℕ
get_data_connection_count enable_fallback heap e =
    let count = count_data heap e.data_conn in
    let ctrl : ℕ = elim e.ctrl_conn [ none ↦ 0 | some c ↦ if is_counted (heap c) then 1 else 0 ] in
    if (count == 0) && enable_fallback then ctrl else count
