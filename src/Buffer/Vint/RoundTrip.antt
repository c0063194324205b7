-- ===== src/Buffer/Vint/RoundTrip.antt =====
-- Reading back what `WriteVint` wrote, and the size of an encoding.
use libatbus_go.Base.{
  ℕ, zero, suc, ◌*◌, ◌/◌, ◌^◌, ◌≤◌, ◌<◌, ◌≡◌, ◌≢◌, refl, ap, ◌∙◌, arith, ◌⊎◌, inl, inr,
}
use native.Mathlib.Numerals.{add-one}
use native.Mathlib.Decide.{ℕ_discrete}
use libatbus_go.Base.{List, length, drop}
use libatbus_go.Buffer.Vint.{IsU64, read_vint, write_vint, vint_encoded_size}
use libatbus_go.Buffer.Vint.Encoding.{
  high_groups, high_groups-zero, high_groups-pos, read_vint-encoding,
}
use libatbus_go.Buffer.Vint.Write.{length-encoding, vint_encoded_size_lem, write_vint_fits}

-- `ReadVint` on a slice that `WriteVint` wrote a uint64 into, with room for it, returns that value
-- and its encoded size, whatever the bytes behind the encoding are.
pub read_vint-write_vint :
    (v : ℕ) (buf : List ℕ)
    → IsU64 v
    → vint_encoded_size v ≤ length buf
    → read_vint (write_vint v buf).1 ≡ (v, vint_encoded_size v)
read_vint-write_vint v buf h fits =
    ap (λ (p : ℕ × List ℕ). read_vint p.1) (write_vint_fits v buf h fits)
    ∙ read_vint-encoding 9 v (drop (vint_encoded_size v) buf) (omega arith) h
    ∙ ap (λ (n : ℕ). (v, n)) (omega (arith, vint_encoded_size_lem v h))

-- `n` is the least number of groups of seven bits that hold `v`; none for 0.
record Fits (v n : ℕ) : Type 0 where
  enough : v < 128 ^ n
  none_for_zero : v ≡ 0 → n ≡ 0
  needed : v ≢ 0 → 128 ^ n ≤ 128 * v

Fits-step : (v n : ℕ) → v ≢ 0 → Fits (v / 128) n → Fits v (suc n)
Fits-step v zero h f = record {
  enough = omega (arith, f.enough);
  none_for_zero = λ e. absurd (h e);
  needed = λ _. omega arith;
}
Fits-step v (suc n) h f =
    let more : v / 128 ≢ 0 = λ e. absurd (omega (arith, f.none_for_zero e)) in
    record {
      enough = omega (arith, f.enough);
      none_for_zero = λ e. absurd (h e);
      needed = λ _. omega (arith, f.needed more);
    }

high_groups-Fits : (k v : ℕ) → v < 128 ^ k → Fits v (length (high_groups k v))
high_groups-Fits k zero h =
    rw (high_groups-zero k)
      (record { enough = omega arith; none_for_zero = λ e. e; needed = λ e. absurd (e refl) })
high_groups-Fits zero (suc v) h = absurd (omega arith)
high_groups-Fits (suc k) (suc v) h =
    rw (high_groups-pos k (suc v) (omega arith))
      (Fits-step (suc v) _ (omega arith) (high_groups-Fits k (suc v / 128) (omega arith)))

length-high_groups-le : (k v : ℕ) → length (high_groups k v) ≤ k
unfolding high_groups
length-high_groups-le zero v = omega arith
length-high_groups-le (suc k) v = ground (arith, length-high_groups-le k (v / 128))

-- For a uint64, `VintEncodedSize` is the least number of groups of seven bits that hold the value,
-- and at least one: it lies between 1 and 10, the value is below 128 to that power, and above one
-- byte it is at least 128 to the power below.
pub vint_encoded_size_bounds :
    (v : ℕ)
    → IsU64 v
    → let n = vint_encoded_size v in
      (1 ≤ n) × (n ≤ 10) × (v < 128 ^ n) × ((n ≡ 1) ⊎ (128 ^ n ≤ 128 * v))
vint_encoded_size_bounds v h =
    let f = high_groups-Fits 9 (v / 128) (omega arith) in
    let n = length-high_groups-le 9 (v / 128) in
    rw (vint_encoded_size_lem v h ∙ length-encoding 9 v, add-one)
      (elim (ℕ_discrete (v / 128) 0) [
        | yes e ↦ (
          omega arith,
          omega arith,
          omega (arith, f.enough),
          inl (omega (arith, f.none_for_zero e)),
        )
        | no ne ↦
            (omega arith, omega arith, omega (arith, f.enough), inr (omega (arith, f.needed ne)))
      ])
