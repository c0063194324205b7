-- ===== src/Address/RoundTrip.antt =====
-- An address that `MakeAddressFromComponents` makes is what `MakeAddress` reads back.
use libatbus_go.Base.{
  ℕ, zero, suc, ◌+◌, ◌^◌, ◌<◌, ◌≡◌, ◌≢◌, refl, sym, ap, ◌∙◌, arith, [], ◌∷◌, ◌++◌, append-nil, none,
  some, true, false, ◌⊎◌, inl, inr, Bool-cases, All,
}
use libatbus_go.Base.{
  length, drop, take-append_left, drop-append_left, drop-drop, leb, slt, le→leb, ≢→==,
}
use libatbus_go.Address.{
  String, colon, separator, starts_with, lower_byte, to_lower, index_of_separator,
  last_index_of_colon, split_port, split_scheme, host_and_port, make_address,
  make_address_from_components, itoa, atoi,
}
use libatbus_go.Address.Decimal.{IsDigit, itoa-IsDigit, atoi-itoa}

-- No byte of the text is a colon.
abbrev pub HasNoColon : String → Type 0
HasNoColon s = All (λ x. x ≢ 58) s

not_here : (x : ℕ) (xs : String) → x ≢ 58 → starts_with separator (x ∷ xs) ≡ false
not_here x xs h = elim (Bool-cases (leb 3 (length (x ∷ xs)))) [
  | inl e ↦ rw (e, ≢→== x 58 h) refl
  | inr e ↦ rw e refl
]

index_lem :
    (scheme rest : String)
    → HasNoColon scheme
    → index_of_separator (scheme ++ (separator ++ rest)) ≡ some (length scheme)
unfolding index_of_separator
index_lem [] rest h = rw (le→leb 3 (suc (suc (suc (length rest)))) (omega arith)) refl
index_lem (x ∷ xs) rest (hx, h) =
    rw (not_here x (xs ++ (separator ++ rest)) hx, index_lem xs rest h) refl

last_none : (s : String) → HasNoColon s → last_index_of_colon s ≡ none
unfolding last_index_of_colon
last_none [] h = refl
last_none (x ∷ xs) (hx, h) = rw (last_none xs h, ≢→== x 58 hx) refl

last_lem :
    (host tail : String)
    → HasNoColon tail
    → last_index_of_colon (host ++ (colon ∷ tail)) ≡ some (length host)
unfolding last_index_of_colon
last_lem [] tail h = rw (last_none tail h) refl
last_lem (x ∷ xs) tail h = rw (last_lem xs tail h) refl

lower_byte-lower_byte : (x : ℕ) → lower_byte (lower_byte x) ≡ lower_byte x
lower_byte-lower_byte x = ground arith

to_lower-to_lower : (s : String) → to_lower (to_lower s) ≡ to_lower s
to_lower-to_lower [] = refl
to_lower-to_lower (x ∷ xs) = λ i. lower_byte-lower_byte x i ∷ to_lower-to_lower xs i

to_lower-HasNoColon : (s : String) → HasNoColon s → HasNoColon (to_lower s)
to_lower-HasNoColon [] h = tt
to_lower-HasNoColon (x ∷ xs) (hx, h) = (λ e. hx (ground arith), to_lower-HasNoColon xs h)

IsDigit-HasNoColon : (s : String) → All IsDigit s → HasNoColon s
IsDigit-HasNoColon [] h = tt
IsDigit-HasNoColon (x ∷ xs) (hx, h) = ((λ e. omega (arith, hx.1, e)), IsDigit-HasNoColon xs h)

-- What `MakeAddress` makes of a scheme and a host with a port.
with_port :
    (host tail : String) (port : ℕ)
    → HasNoColon tail
    → atoi tail ≡ some port
    → host_and_port (host ++ (colon ∷ tail)) ≡ (host, port)
with_port host tail port h e =
    let behind : drop (length host + 1) (host ++ (colon ∷ tail)) ≡ tail =
      ap (λ n. drop n (host ++ (colon ∷ tail))) {y = suc (length host)} (omega arith)
      ∙ drop_host host tail in
    ap (split_port (host ++ (colon ∷ tail))) (last_lem host tail h)
    ∙ rw (behind, e, take-append_left (length host) host (colon ∷ tail) refl) refl
  where
    drop_host : (host tail : String) → drop (suc (length host)) (host ++ (colon ∷ tail)) ≡ tail
    drop_host [] tail = refl
    drop_host (x ∷ host) tail = drop_host host tail

make_address_lem :
    (scheme rest host : String) (port : ℕ)
    → HasNoColon scheme
    → host_and_port rest ≡ (host, port)
    → make_address (to_lower scheme ++ (separator ++ rest))
      ≡ some record {
        address = to_lower scheme ++ (separator ++ rest);
        scheme = to_lower scheme;
        host = host;
        port = port;
      }
unfolding make_address
make_address_lem scheme rest host port h e =
    let s = to_lower scheme in
    let whole = s ++ (separator ++ rest) in
    let front = take-append_left (length s) s (separator ++ rest) refl in
    let behind : drop (length s + 3) whole ≡ rest =
      sym (drop-drop 3 (length s) whole)
      ∙ ap (drop 3) (drop-append_left (length s) s (separator ++ rest) refl) in
    ap (split_scheme whole) (index_lem s rest (to_lower-HasNoColon scheme h))
    ∙ rw (front, behind, e, to_lower-to_lower scheme) refl

slt_pos : (port : ℕ) → 0 < port → port < 2 ^ 63 → slt 0 port ≡ true
slt_pos port h small = ground arith

-- For a scheme without a colon, and a port from 1 on that an `int` holds, `MakeAddress` reads back
-- what `MakeAddressFromComponents` makes, whatever the host; for the port 0, where the host has no
-- colon.
pub make_address-make_address_from_components :
    (scheme host : String) (port : ℕ)
    → HasNoColon scheme
    → port < 2 ^ 63
    → (0 < port) ⊎ HasNoColon host
    → make_address (make_address_from_components scheme host port).address
      ≡ some (make_address_from_components scheme host port)
unfolding make_address_from_components
make_address-make_address_from_components scheme host zero h small (inl pos) = absurd (omega arith)
make_address-make_address_from_components scheme host zero h small (inr host_ok) =
    make_address_lem scheme (host ++ []) host 0 h
      (ap host_and_port (append-nil host) ∙ ap (split_port host) (last_none host host_ok))
make_address-make_address_from_components scheme host (suc p) h small asks =
    let port = suc p in
    rw (slt_pos port (omega arith) small) (
      make_address_lem scheme (host ++ (colon ∷ itoa port)) host port h (
        with_port host (itoa port) port (IsDigit-HasNoColon (itoa port) (itoa-IsDigit port))
          (atoi-itoa port small)))
