-- ===== src/Bus/Statistic.antt =====
-- impl/atbus_endpoint.go: the statistics of an endpoint. Those of the pushes and pulls are sums over
-- its connections, in `uint64`.
use libatbus_go.Base.{ℕ, List, [], ◌∷◌, none, some}
use libatbus_go.Base.{◌==◌, if◌then◌else◌}
use libatbus_go.Bus.Types.{ConnectionStatistic, Connection, EndpointStatistic, Endpoint, add_uint64}

-- The loop of each sum over the data connections, and the control connection behind it
unfoldable pub sum_data : (ConnectionStatistic → ℕ) → (ℕ → Connection) → ℕ → List ℕ → ℕ
sum_data field heap total [] = total
sum_data field heap total (c ∷ cs) =
    sum_data field heap (add_uint64 total (field (heap c).statistic)) cs

unfoldable pub sum_statistic : (ConnectionStatistic → ℕ) → (ℕ → Connection) → Endpoint → ℕ
sum_statistic field heap e =
    let total = sum_data field heap 0 e.data_conn in
    elim e.ctrl_conn [ none ↦ total | some c ↦ add_uint64 total (field (heap c).statistic) ]

abbrev pub get_statistic_push_start_times : (ℕ → Connection) → Endpoint → ℕ
get_statistic_push_start_times = sum_statistic (λ t. t.push_start_times)

abbrev pub get_statistic_push_start_size : (ℕ → Connection) → Endpoint → ℕ
get_statistic_push_start_size = sum_statistic (λ t. t.push_start_size)

abbrev pub get_statistic_push_success_times : (ℕ → Connection) → Endpoint → ℕ
get_statistic_push_success_times = sum_statistic (λ t. t.push_success_times)

abbrev pub get_statistic_push_success_size : (ℕ → Connection) → Endpoint → ℕ
get_statistic_push_success_size = sum_statistic (λ t. t.push_success_size)

abbrev pub get_statistic_push_failed_times : (ℕ → Connection) → Endpoint → ℕ
get_statistic_push_failed_times = sum_statistic (λ t. t.push_failed_times)

abbrev pub get_statistic_push_failed_size : (ℕ → Connection) → Endpoint → ℕ
get_statistic_push_failed_size = sum_statistic (λ t. t.push_failed_size)

abbrev pub get_statistic_pull_times : (ℕ → Connection) → Endpoint → ℕ
get_statistic_pull_times = sum_statistic (λ t. t.pull_start_times)

abbrev pub get_statistic_pull_size : (ℕ → Connection) → Endpoint → ℕ
get_statistic_pull_size = sum_statistic (λ t. t.pull_start_size)

abbrev pub change_stat : (EndpointStatistic → EndpointStatistic) → Endpoint → Endpoint
change_stat f e = record e { stat = f e.stat }

-- `AddStatisticFault`, `ClearStatisticFault`, `SetStatisticUnfinishedPing`, `SetStatisticPingDelay`
abbrev pub add_endpoint_fault : Endpoint → ℕ × Endpoint
add_endpoint_fault e =
    let n = add_uint64 e.stat.faults 1 in (n, change_stat (λ t. record t { faults = n }) e)

abbrev pub clear_endpoint_fault : Endpoint → Endpoint
clear_endpoint_fault e = change_stat (λ t. record t { faults = 0 }) e

abbrev pub set_statistic_unfinished_ping : ℕ → Endpoint → Endpoint
set_statistic_unfinished_ping p e = change_stat (λ t. record t { unfinished_ping = p }) e

abbrev pub set_statistic_ping_delay : ℕ → ℕ → Endpoint → Endpoint
set_statistic_ping_delay delay pong_time e =
    change_stat (λ t. record t { ping_delay = delay; last_pong_time = pong_time }) e

-- `GetStatisticCreatedTime`, with the node's tick: a missing time is set.
abbrev pub get_statistic_created_time : ℕ → Endpoint → ℕ × Endpoint
get_statistic_created_time tick e =
    if e.stat.created_time == 0
    then (tick, change_stat (λ t. record t { created_time = tick }) e)
    else (e.stat.created_time, e)
