-- ===== src/Address/Tests.antt =====
-- Addresses, read and made.
use libatbus_go.Base.{◌-◌, ◌^◌, ◌≡◌, refl, arith, [], ◌∷◌, some, inl}
use libatbus_go.Address.{
  make_address, make_address_from_components, index_of_separator, last_index_of_colon, atoi,
  digits_value,
}
use libatbus_go.Address.RoundTrip.{make_address-make_address_from_components}

-- "Tcp", "::1" and the port 8080
make_address-make_address_from_components_example :
    make_address
      (make_address_from_components (84 ∷ 99 ∷ 112 ∷ []) (58 ∷ 58 ∷ 49 ∷ []) 8080).address
    ≡ some (make_address_from_components (84 ∷ 99 ∷ 112 ∷ []) (58 ∷ 58 ∷ 49 ∷ []) 8080)
make_address-make_address_from_components_example =
    make_address-make_address_from_components (84 ∷ 99 ∷ 112 ∷ []) (58 ∷ 58 ∷ 49 ∷ []) 8080
      ((λ e. omega (arith, e)), ((λ e. omega (arith, e)), ((λ e. omega (arith, e)), tt)))
      (omega arith) (inl (omega arith))

-- "a://h:-5" has a port below zero, and in "a://h:x" it cannot be read.
negative_port :
    make_address (97 ∷ 58 ∷ 47 ∷ 47 ∷ 104 ∷ 58 ∷ 45 ∷ 53 ∷ [])
    ≡ some record {
      address = 97 ∷ 58 ∷ 47 ∷ 47 ∷ 104 ∷ 58 ∷ 45 ∷ 53 ∷ [];
      scheme = 97 ∷ [];
      host = 104 ∷ [];
      port = 2 ^ 64 - 5;
    }
unfolding make_address index_of_separator last_index_of_colon atoi digits_value
negative_port = refl

-- "::1" with the port 0 is made as "a://::1", and read back with the host ":" and the port 1.
short_host :
    make_address (make_address_from_components (97 ∷ []) (58 ∷ 58 ∷ 49 ∷ []) 0).address
    ≡ some record {
      address = 97 ∷ 58 ∷ 47 ∷ 47 ∷ 58 ∷ 58 ∷ 49 ∷ [];
      scheme = 97 ∷ [];
      host = 58 ∷ [];
      port = 1;
    }
unfolding make_address make_address_from_components index_of_separator last_index_of_colon atoi
    digits_value
short_host = refl
