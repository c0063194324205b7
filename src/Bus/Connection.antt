-- ===== src/Bus/Connection.antt =====
-- impl/atbus_connection.go: the operations of a connection but for `Reset`. What the channel of the
-- node answers, a part of the operating system's I/O, is a parameter of each call; none is for a node
-- without a channel.
use libatbus_go.Base.{ℕ, List, Option, none, some, Bool, true, false, not, ◌&&◌, ◌||◌, length}
use libatbus_go.Base.{if◌then◌else◌}
use libatbus_go.Address.{String, make_address}
use libatbus_go.Bus.Types.{
  ErrorType, success, no_data, closing, channel_not_support, is_success, disconnected, connecting,
  handshaking, connected, disconnecting, same_state, reg_fd, listen_fd, temporary, server_mode,
  client_mode, no_statistic, Connection, Store, remove_connection_timer, put_connecting,
  delete_connecting, disconnect_stream, add_uint64, write_connection, call, set_connection_flag,
  and_then,
}

-- What the channel, as it stands at one call, answers to that call. An operation asks at most once; the
-- next call may meet another state, such as a full queue, and gets an `IoChannel` of its own.
pub record IoChannel : Type 0 where
  pub listen_to : String → ErrorType
  pub connect_to : String → ℕ × ErrorType
  pub send : ℕ → List ℕ → ErrorType

-- `CreateConnection`
unfoldable pub create_connection : String → Option Connection
create_connection addr = and_then (make_address addr) λ address. some record {
  binding = none;
  status = disconnected;
  channel_address = address;
  flags = λ f. false;
  statistic = no_statistic;
  io_stream_connection = none;
}

-- `Listen`
unfoldable pub listen : Option IoChannel → Connection → ErrorType × Connection
listen none c = (channel_not_support, c)
listen (some channel) c =
    let c1 =
      set_connection_flag server_mode true
        (set_connection_flag listen_fd true (record c { status = connecting })) in
    let ret = channel.listen_to c.channel_address.address in
    if is_success ret then (success, record c1 { status = connected }) else (
      ret,
      set_connection_flag server_mode false
          (set_connection_flag listen_fd false (record c1 { status = disconnected })),
    )

-- The counts of a push that starts, and of one that fails
abbrev pub push_started : ℕ → Connection → Connection
push_started n c = record c {
  statistic = record (c.statistic) {
    push_start_times = add_uint64 c.statistic.push_start_times 1;
    push_start_size = add_uint64 c.statistic.push_start_size n;
  };
}

abbrev pub push_failed : ℕ → Connection → Connection
push_failed n c = record c {
  statistic = record (c.statistic) {
    push_failed_times = add_uint64 c.statistic.push_failed_times 1;
    push_failed_size = add_uint64 c.statistic.push_failed_size n;
  };
}

-- `Push`, up to the call of the channel, and with its answer
abbrev pub push_to : Option IoChannel → List ℕ → Option ℕ → Connection → ErrorType × Connection
push_to channel bytes none c = (no_data, push_failed (length bytes) c)
push_to none bytes (some stream) c = (channel_not_support, push_failed (length bytes) c)
push_to (some channel) bytes (some stream) c =
    let ret = channel.send stream bytes in
    (ret, if is_success ret then c else push_failed (length bytes) c)

unfoldable pub push : Option IoChannel → List ℕ → Connection → ErrorType × Connection
push channel bytes c =
    let c1 = push_started (length bytes) c in
    if not (same_state c.status connected) && not (same_state c.status handshaking)
    then (closing, push_failed (length bytes) c1)
    else push_to channel bytes c.io_stream_connection c1

-- `Disconnect`: it closes the stream only where the node has a channel.
abbrev pub close_stream : Option IoChannel → Option ℕ → Store → Store
close_stream (some channel) (some stream) s = call (disconnect_stream stream) s
close_stream _ _ s = s

unfoldable pub disconnect : Option IoChannel → ℕ → Store → ErrorType × Store
disconnect channel c s =
    let conn = s.connection c in
    let s1 = write_connection c (record conn { status = disconnecting }) s in
    let s2 = close_stream channel conn.io_stream_connection s1 in
    let s3 =
      write_connection c
        (record (s2.connection c) { io_stream_connection = none; status = disconnected }) s2 in
    if same_state conn.status disconnected then (success, s) else (success, s3)

-- `Connect`: `on_new` is the node's `OnNewConnection`, `reset` is `Reset`.
module _ (on_new : ℕ → Store → ErrorType × Store) (reset : ℕ → Store → Option Store) where
  abbrev pub connected_to : ℕ → ℕ → Store → Option (ErrorType × Store)
  connected_to c stream s =
      let s1 =
        write_connection c
          (record (s.connection c) { io_stream_connection = some stream; status = handshaking })
          s in
      let (ret, s2) = on_new c s1 in
      if is_success ret then some (success, s2) else and_then (reset c s2) (λ s3. some (ret, s3))

  unfoldable pub connect : Option IoChannel → ℕ → Store → Option (ErrorType × Store)
  connect none c s = some (channel_not_support, s)
  connect (some channel) c s =
      let conn = s.connection c in
      let opened =
        set_connection_flag client_mode true
          (set_connection_flag reg_fd true (record conn { status = connecting })) in
      let s1 = call (put_connecting c) (write_connection c opened s) in
      let (stream, ret) = channel.connect_to conn.channel_address.address in
      let refused =
        set_connection_flag client_mode false (record opened { status = disconnected }) in
      if is_success ret
      then connected_to c stream s1
      else some (ret, call (delete_connecting c) (write_connection c refused s1))

-- `AddStatisticFault`, `ClearStatisticFault`, `SetTemporary`
abbrev pub add_statistic_fault : Connection → ℕ × Connection
add_statistic_fault c =
    let n = add_uint64 c.statistic.fault_count 1 in
    (n, record c { statistic = record (c.statistic) { fault_count = n } })

abbrev pub clear_statistic_fault : Connection → Connection
clear_statistic_fault c = record c { statistic = record (c.statistic) { fault_count = 0 } }

abbrev pub set_temporary : Connection → Connection
set_temporary c = set_connection_flag temporary true c

-- `SetIoStreamConnection`, `RemoveOwnerChecker`
abbrev pub set_io_stream_connection : Option ℕ → Connection → Connection
set_io_stream_connection stream c = record c { io_stream_connection = stream }

abbrev pub remove_owner_checker : ℕ → Store → Store
remove_owner_checker c s = call (remove_connection_timer c) s

abbrev pub is_connected : Connection → Bool
is_connected c = same_state c.status connected

abbrev pub is_running : Connection → Bool
is_running c =
    same_state c.status connecting
    || same_state c.status handshaking
    || same_state c.status connected
