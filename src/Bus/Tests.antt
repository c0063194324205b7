-- ===== src/Bus/Tests.antt =====
-- Connections and endpoints on a small store.
use libatbus_go.Base.{
  inr, ℕ, ◌≡◌, ◌%◌, ◌^◌, ◌+◌, refl, arith, List, [], ◌∷◌, none, some, Bool, true, false, length,
}
use libatbus_go.Bus.Types.{
  ErrorType, success, other_error, handshaking, no_statistic, Connection, Store, has,
}
use libatbus_go.Bus.Connection.{IoChannel}
use libatbus_go.Bus.Endpoint.{add_connection, remove_connection, reset_connection, reset_endpoint}
use libatbus_go.Bus.Select.{create_endpoint, get_data_connection}
use libatbus_go.Bus.Consistent.{Consistent, Consistent-Agrees, Agrees-Consistent}
use libatbus_go.Bus.Attach.{Added, add_connection_lem}
use libatbus_go.Bus.Reset.{resets_end}
use libatbus_go.Bus.Remove.{Removed, remove_connection-Removed, reset_connection-Consistent}
use libatbus_go.Bus.Choice.{CanCarry, AsNear, get_data_connection-best}
use libatbus_go.Bus.Push.{Pushing, push_all, push_all-counts, failures, failed_bytes, total_bytes}

abbrev line : Connection
line = record {
  binding = none;
  status = handshaking;
  channel_address = record { address = []; scheme = []; host = []; port = 0 };
  flags = λ f. false;
  statistic = no_statistic;
  io_stream_connection = some 0;
}

-- Endpoints without connections, and connections without a binding
abbrev fresh : Store
fresh = record { connection = λ c. line; endpoint = λ e. create_endpoint 1 e 7 []; calls = [] }

fresh-Consistent : Consistent fresh
fresh-Consistent = record { idle = λ e. refl; bound = λ e c. refl; once = λ e. refl }

add_connection_lem_example : Added false 0 1 fresh (add_connection 0 1 false fresh)
add_connection_lem_example =
    add_connection_lem 0 1 false fresh (Consistent-Agrees fresh fresh-Consistent)

-- One more connection
added-Consistent :
    (e c : ℕ) (force : Bool) (s : Store)
    → Consistent s
    → Consistent ((add_connection e c force s).1)
added-Consistent e c force s ok =
    let (agrees, same, _) = add_connection_lem e c force s (Consistent-Agrees s ok) in
    Agrees-Consistent s ((add_connection e c force s).1) ok agrees same

-- The endpoint 0 with the control connection 1 and the data connections 2 and 3
abbrev two : Store
two = (add_connection 0 2 false ((add_connection 0 1 false fresh).1)).1

abbrev linked : Store
linked = (add_connection 0 3 false two).1

linked-Consistent : Consistent linked
linked-Consistent = added-Consistent 0 3 false two (
    added-Consistent 0 2 false ((add_connection 0 1 false fresh).1)
      (added-Consistent 0 1 false fresh fresh-Consistent))

remove_connection-Removed_example :
    (r : Bool × Store) × (remove_connection 1 0 2 linked ≡ some r) × Removed 0 2 linked r
remove_connection-Removed_example = remove_connection-Removed 0 0 2 linked linked-Consistent

reset_connection-Consistent_example :
    (t : Store) × (reset_connection 2 1 linked ≡ some t)
    × Consistent t
    × ((t.connection 1).binding ≡ none)
    × ((t.connection 1).flags ≡ (λ f. false))
    × ((t.connection 1).statistic ≡ no_statistic)
unfolding add_connection
reset_connection-Consistent_example = reset_connection-Consistent 0 1 linked linked-Consistent refl

resets_end_example :
    ((t : Store) × (reset_connection 5 1 linked ≡ some t) × (reset_connection 2 1 linked ≡ some t))
    × ((t : Store) × (reset_endpoint 4 0 linked ≡ some t) × (reset_endpoint 1 0 linked ≡ some t))
    × ((t : Bool × Store) × (remove_connection 4 0 1 linked ≡ some t)
        × (remove_connection 1 0 1 linked ≡ some t))
resets_end_example = resets_end 3 1 0 linked

get_data_connection-best_example :
    (d : ℕ) × ((get_data_connection 9 0 true linked).0 ≡ some d)
    × (has d (linked.endpoint 0).data_conn ≡ true)
    × CanCarry (linked.endpoint 9) (linked.endpoint 0) (linked.connection d)
    × AsNear (linked.connection d) (linked.connection 3)
    × (has 3 (((get_data_connection 9 0 true linked).1).endpoint 0).data_conn ≡ true)
unfolding add_connection
get_data_connection-best_example =
    get_data_connection-best 9 0 3 true linked (λ p. omega (arith, p)) refl refl
      (record { is_connected = refl; reaches = inr (inr refl) })

abbrev channel : ErrorType → IoChannel
channel answer = record {
  listen_to = λ a. success;
  connect_to = λ a. (0, success);
  send = λ c bytes. answer;
}

-- The same byte twice: the queue takes it, then it is full.
abbrev pushes : List Pushing
pushes = (some (channel success), 1 ∷ []) ∷ (some (channel (other_error 5)), 1 ∷ []) ∷ []

push_all-counts_example :
    let (rs, c') = push_all pushes line in
    let a = line.statistic in
    let b = c'.statistic in
    (length rs ≡ 2)
    × (b.push_start_times % 2 ^ 64 ≡ (a.push_start_times + 2) % 2 ^ 64)
    × (b.push_start_size % 2 ^ 64 ≡ (a.push_start_size + total_bytes pushes) % 2 ^ 64)
    × (b.push_failed_times % 2 ^ 64 ≡ (a.push_failed_times + failures rs) % 2 ^ 64)
    × (b.push_failed_size % 2 ^ 64 ≡ (a.push_failed_size + failed_bytes pushes rs) % 2 ^ 64)
push_all-counts_example = push_all-counts pushes line
