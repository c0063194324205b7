-- ===== src/Bus/Types.antt =====
-- The objects of impl/atbus_connection.go and impl/atbus_endpoint.go, with the states and flags of
-- types/atbus_connection.go and types/atbus_endpoint.go. A pointer is a number, and the store says
-- what is behind it. The flags, a `uint32` with a bit for each, are a test for each bit. The calls
-- of the node that only change its own timers and lists, or run its callbacks, are kept as a list.
-- Every object has an owner, as the code makes none without.
use libatbus_go.Base.{
  ℕ, ◌+◌, ◌%◌, ◌^◌, List, [], ◌∷◌, ◌++◌, Option, none, some, Bool, true, false, ◌||◌,
}
use libatbus_go.Base.{◌==◌, if◌then◌else◌}
use libatbus_go.Address.{String, ChannelAddress}

-- The codes that these files name; the channel and the node answer with others.
pub data ErrorType : Type 0 where
  success : ErrorType
  params : ErrorType
  no_data : ErrorType
  closing : ErrorType
  channel_not_support : ErrorType
  other_error : ℕ → ErrorType

abbrev pub is_success : ErrorType → Bool
is_success success = true
is_success _ = false

-- `ConnectionState`
pub data ConnectionState : Type 0 where
  disconnected : ConnectionState
  connecting : ConnectionState
  handshaking : ConnectionState
  connected : ConnectionState
  disconnecting : ConnectionState

abbrev pub state_value : ConnectionState → ℕ
state_value disconnected = 0
state_value connecting = 1
state_value handshaking = 2
state_value connected = 3
state_value disconnecting = 4

abbrev pub same_state : ConnectionState → ConnectionState → Bool
same_state s t = state_value s == state_value t

-- `ConnectionFlag`
pub data ConnectionFlag : Type 0 where
  reg_proc : ConnectionFlag
  reg_fd : ConnectionFlag
  access_share_addr : ConnectionFlag
  access_share_host : ConnectionFlag
  resetting : ConnectionFlag
  destructing : ConnectionFlag
  listen_fd : ConnectionFlag
  temporary : ConnectionFlag
  peer_closed : ConnectionFlag
  server_mode : ConnectionFlag
  client_mode : ConnectionFlag

abbrev pub flag_value : ConnectionFlag → ℕ
flag_value reg_proc = 1
flag_value reg_fd = 2
flag_value access_share_addr = 4
flag_value access_share_host = 8
flag_value resetting = 16
flag_value destructing = 32
flag_value listen_fd = 64
flag_value temporary = 128
flag_value peer_closed = 256
flag_value server_mode = 512
flag_value client_mode = 1024

-- `EndpointFlag`
pub data EndpointFlag : Type 0 where
  ep_resetting : EndpointFlag
  connection_sorted : EndpointFlag
  ep_destructing : EndpointFlag
  has_listen_proc : EndpointFlag
  has_listen_fd : EndpointFlag
  mutable_flags : EndpointFlag
  has_ping_timer : EndpointFlag

abbrev pub endpoint_flag_value : EndpointFlag → ℕ
endpoint_flag_value ep_resetting = 1
endpoint_flag_value connection_sorted = 2
endpoint_flag_value ep_destructing = 4
endpoint_flag_value has_listen_proc = 8
endpoint_flag_value has_listen_fd = 16
endpoint_flag_value mutable_flags = 32
endpoint_flag_value has_ping_timer = 64

-- `ConnectionStatistic`
pub record ConnectionStatistic : Type 0 where
  pub push_start_times : ℕ
  pub push_start_size : ℕ
  pub push_success_times : ℕ
  pub push_success_size : ℕ
  pub push_failed_times : ℕ
  pub push_failed_size : ℕ
  pub pull_start_times : ℕ
  pub pull_start_size : ℕ
  pub fault_count : ℕ

abbrev pub no_statistic : ConnectionStatistic
no_statistic = record {
  push_start_times = 0;
  push_start_size = 0;
  push_success_times = 0;
  push_success_size = 0;
  push_failed_times = 0;
  push_failed_size = 0;
  pull_start_times = 0;
  pull_start_size = 0;
  fault_count = 0;
}

-- `Connection`: the context of its encryption is another component.
pub record Connection : Type 0 where
  pub binding : Option ℕ
  pub status : ConnectionState
  pub channel_address : ChannelAddress
  pub flags : ConnectionFlag → Bool
  pub statistic : ConnectionStatistic
  pub io_stream_connection : Option ℕ

-- `endpointStatistic`: a time is a number, 0 for the zero time.
pub record EndpointStatistic : Type 0 where
  pub faults : ℕ
  pub unfinished_ping : ℕ
  pub ping_delay : ℕ
  pub last_pong_time : ℕ
  pub created_time : ℕ

-- `Endpoint`: the lists have no nil, as `AddConnection` takes none.
pub record Endpoint : Type 0 where
  pub id : ℕ
  pub pid : ℕ
  pub hostname : String
  pub hash_code : String
  pub endpoint_flags : EndpointFlag → Bool
  pub ctrl_conn : Option ℕ
  pub data_conn : List ℕ
  pub listen_address : List ChannelAddress
  pub supported_schemas : Option (List String)
  pub stat : EndpointStatistic

-- The calls of the node
pub data NodeCall : Type 0 where
  remove_connection_timer : ℕ → NodeCall
  add_connection_gc_list : ℕ → NodeCall
  on_disconnect : Option ℕ → ℕ → NodeCall
  remove_ping_timer : ℕ → NodeCall
  add_ping_timer : ℕ → ℕ → NodeCall
  add_endpoint_gc_list : ℕ → NodeCall
  put_connecting : ℕ → NodeCall
  delete_connecting : ℕ → NodeCall
  disconnect_stream : ℕ → NodeCall

pub record Store : Type 0 where
  pub connection : ℕ → Connection
  pub endpoint : ℕ → Endpoint
  pub calls : List NodeCall

-- What is done next where there is a result
abbrev pub and_then {ℓ κ} : {A : Type ℓ} {B : Type κ} → Option A → (A → Option B) → Option B
and_then none f = none
and_then (some a) f = f a

abbrev pub add_uint64 : ℕ → ℕ → ℕ
add_uint64 a b = (a + b) % 2 ^ 64

abbrev pub is_some {ℓ} : {A : Type ℓ} → Option A → Bool
is_some none = false
is_some (some a) = true

-- `p == q` on pointers that may be nil
abbrev pub same_pointer : Option ℕ → Option ℕ → Bool
same_pointer none none = true
same_pointer (some p) (some q) = p == q
same_pointer _ _ = false

abbrev pub write_connection : ℕ → Connection → Store → Store
write_connection c v s = record s { connection = λ x. if x == c then v else s.connection x }

abbrev pub write_endpoint : ℕ → Endpoint → Store → Store
write_endpoint e v s = record s { endpoint = λ x. if x == e then v else s.endpoint x }

abbrev pub call : NodeCall → Store → Store
call k s = record s { calls = s.calls ++ (k ∷ []) }

-- `setFlag` of both, and the tests of a flag
abbrev pub with_flag : ConnectionFlag → Bool → (ConnectionFlag → Bool) → ConnectionFlag → Bool
with_flag f v flags g = if flag_value g == flag_value f then v else flags g

abbrev pub with_endpoint_flag : EndpointFlag → Bool → (EndpointFlag → Bool) → EndpointFlag → Bool
with_endpoint_flag f v flags g =
    if endpoint_flag_value g == endpoint_flag_value f then v else flags g

abbrev pub check_flag : ConnectionFlag → Connection → Bool
check_flag f c = c.flags f

abbrev pub set_connection_flag : ConnectionFlag → Bool → Connection → Connection
set_connection_flag f v c = record c { flags = with_flag f v c.flags }

abbrev pub get_flag : EndpointFlag → Endpoint → Bool
get_flag f e = e.endpoint_flags f

abbrev pub set_endpoint_flag : EndpointFlag → Bool → Endpoint → Endpoint
set_endpoint_flag f v e = record e { endpoint_flags = with_endpoint_flag f v e.endpoint_flags }

abbrev pub has : ℕ → List ℕ → Bool
has c [] = false
has c (x ∷ xs) = (x == c) || has c xs

-- `setConnectionBinding` and `setConnectionStatus`
abbrev pub set_connection_binding : ℕ → Option ℕ → Store → Store
set_connection_binding c b s = write_connection c (record (s.connection c) { binding = b }) s

abbrev pub set_connection_status : ℕ → ConnectionState → Store → Store
set_connection_status c st s = write_connection c (record (s.connection c) { status = st }) s
