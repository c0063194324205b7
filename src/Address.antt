-- ===== src/Address.antt =====
-- channel/utility/channel_utility.go: the addresses of channels. A string is the list of its bytes,
-- which are ASCII, so that `strings.ToLower` works byte by byte. An `int` is a pattern of 64 bits.
pub mod Decimal
pub mod RoundTrip
mod Tests
use libatbus_go.Base.{
  ℕ, zero, suc, ◌+◌, ◌-◌, ◌*◌, ◌/◌, ◌%◌, ◌^◌, List, [], ◌∷◌, ◌++◌, map, Option, none, some, Bool,
  true, false, not, ◌&&◌, ◌||◌,
}
use libatbus_go.Base.{length, take, drop, ltb, leb, slt, ◌==◌, if◌then◌else◌}

abbrev pub String : Type 0
String = List ℕ

abbrev pub colon : ℕ
colon = 58

-- `"://"`
abbrev pub separator : String
separator = 58 ∷ 47 ∷ 47 ∷ []

abbrev pub same_text : String → String → Bool
same_text [] [] = true
same_text (x ∷ xs) (y ∷ ys) = (x == y) && same_text xs ys
same_text _ _ = false

-- `len(s) >= len(prefix) && s[:len(prefix)] == prefix`
abbrev pub starts_with : String → String → Bool
starts_with prefix s = leb (length prefix) (length s) && same_text (take (length prefix) s) prefix

abbrev pub lower_byte : ℕ → ℕ
lower_byte x = if leb 65 x && leb x 90 then x + 32 else x

-- `strings.ToLower`
abbrev pub to_lower : String → String
to_lower = map lower_byte

-- `strings.Index(s, "://")`
unfoldable pub index_of_separator : String → Option ℕ
index_of_separator [] = none
index_of_separator (x ∷ xs) =
    let later = index_of_separator xs in
    if starts_with separator (x ∷ xs)
    then some 0
    else elim later [ none ↦ none | some i ↦ some (suc i) ]

-- `strings.LastIndex(s, ":")`
unfoldable pub last_index_of_colon : String → Option ℕ
last_index_of_colon [] = none
last_index_of_colon (x ∷ xs) = elim (last_index_of_colon xs) [
  | some i ↦ some (suc i)
  | none ↦ if x == colon then some 0 else none
]

-- The digits of a number, read from the left.
unfoldable pub digits_value : ℕ → String → Option ℕ
digits_value total [] = some total
digits_value total (x ∷ xs) =
    let rest = digits_value (total * 10 + (x - 48)) xs in
    if leb 48 x && leb x 57 then rest else none

-- `strconv.Atoi`: an optional sign and some digits, with a value that an `int` holds.
abbrev pub unsigned_value : ℕ → String → Option ℕ
unsigned_value limit [] = none
unsigned_value limit (x ∷ xs) = elim (digits_value 0 (x ∷ xs)) [
  | none ↦ none
  | some n ↦ if leb n limit then some n else none
]

unfoldable pub atoi : String → Option ℕ
atoi [] = none
atoi (x ∷ xs) =
    if x == 45
    then elim (unsigned_value (2 ^ 63) xs) [ none ↦ none | some n ↦ some ((2 ^ 64 - n) % 2 ^ 64) ]
    else if x == 43
    then unsigned_value (2 ^ 63 - 1) xs
    else unsigned_value (2 ^ 63 - 1) (x ∷ xs)

-- `strconv.Itoa` of an `int` that is not negative: twenty digits are enough for it.
unfoldable pub digits : ℕ → ℕ → String
digits zero n = []
digits (suc fuel) n =
    let high = digits fuel (n / 10) in
    if ltb n 10 then ((48 + n) ∷ []) else high ++ ((48 + n % 10) ∷ [])

abbrev pub itoa : ℕ → String
itoa n = digits 20 n

-- `ChannelAddress`
pub record ChannelAddress : Type 0 where
  pub address : String
  pub scheme : String
  pub host : String
  pub port : ℕ

-- What `MakeAddress` reads behind the separator, with the last colon there: the host and the port
abbrev pub split_port : String → Option ℕ → String × ℕ
split_port rest none = (rest, 0)
split_port rest (some port_start) =
    (take port_start rest, elim (atoi (drop (port_start + 1) rest)) [ none ↦ 0 | some port ↦ port ])

abbrev pub host_and_port : String → String × ℕ
host_and_port rest = split_port rest (last_index_of_colon rest)

-- `MakeAddress`, with the place of the separator
abbrev pub split_scheme : String → Option ℕ → Option ChannelAddress
split_scheme input none = none
split_scheme input (some scheme_end) =
    let (host, port) = host_and_port (drop (scheme_end + 3) input) in
    some record {
      address = input;
      scheme = to_lower (take scheme_end input);
      host = host;
      port = port;
    }

unfoldable pub make_address : String → Option ChannelAddress
make_address input = split_scheme input (index_of_separator input)

-- `MakeAddressFromComponents`
unfoldable pub make_address_from_components : String → String → ℕ → ChannelAddress
make_address_from_components scheme host port = record {
  address =
      to_lower scheme ++ (separator ++ (host ++ (if slt 0 port then colon ∷ itoa port else [])));
  scheme = to_lower scheme;
  host = host;
  port = port;
}

-- `"mem:"`, `"shm:"`, `"unix:"`, `"pipe:"`, `"atcp:"`, `"ipv4:"`, `"ipv6:"`
abbrev pub mem_scheme : String
mem_scheme = 109 ∷ 101 ∷ 109 ∷ 58 ∷ []

abbrev pub shm_scheme : String
shm_scheme = 115 ∷ 104 ∷ 109 ∷ 58 ∷ []

abbrev unix_scheme : String
unix_scheme = 117 ∷ 110 ∷ 105 ∷ 120 ∷ 58 ∷ []

abbrev pipe_scheme : String
pipe_scheme = 112 ∷ 105 ∷ 112 ∷ 101 ∷ 58 ∷ []

abbrev atcp_scheme : String
atcp_scheme = 97 ∷ 116 ∷ 99 ∷ 112 ∷ 58 ∷ []

abbrev ipv4_scheme : String
ipv4_scheme = 105 ∷ 112 ∷ 118 ∷ 52 ∷ 58 ∷ []

abbrev ipv6_scheme : String
ipv6_scheme = 105 ∷ 112 ∷ 118 ∷ 54 ∷ 58 ∷ []

-- `"127.0.0.1"` and `"::1"`
abbrev loopback_v4 : String
loopback_v4 = 49 ∷ 50 ∷ 55 ∷ 46 ∷ 48 ∷ 46 ∷ 48 ∷ 46 ∷ 49 ∷ []

abbrev loopback_v6 : String
loopback_v6 = 58 ∷ 58 ∷ 49 ∷ []

abbrev ends_host : String → Bool
ends_host [] = true
ends_host (x ∷ _) = x == colon

-- One round of the loop over the loopback hosts
abbrev is_loopback : String → String → Bool
is_loopback rest loopback = starts_with loopback rest && ends_host (drop (length loopback) rest)

-- `IsSimplexAddress`
unfoldable pub is_simplex_address : String → Bool
is_simplex_address input =
    starts_with mem_scheme (to_lower input) || starts_with shm_scheme (to_lower input)

-- `IsDuplexAddress`
unfoldable pub is_duplex_address : String → Bool
is_duplex_address [] = false
is_duplex_address (x ∷ xs) = not (is_simplex_address (x ∷ xs))

-- `IsLocalProcessAddress`
unfoldable pub is_local_process_address : String → Bool
is_local_process_address input = starts_with mem_scheme (to_lower input)

-- `IsLocalHostAddress`
unfoldable pub is_local_host_address : String → Bool
is_local_host_address input =
    let lower = to_lower input in
    let rest = drop 7 lower in
    is_local_process_address input
    || starts_with shm_scheme lower
    || starts_with unix_scheme lower
    || starts_with pipe_scheme lower
    || (leb 10 (length lower)
        && (starts_with atcp_scheme lower
            || starts_with ipv4_scheme lower
            || starts_with ipv6_scheme lower)
        && (is_loopback rest loopback_v4 || is_loopback rest loopback_v6))
