-- ===== src/Buffer/Vint/Encoding.antt =====
-- What an encoding is, in plain arithmetic, and how `ReadVint` reads one.
use libatbus_go.Base.{
  ℕ, zero, suc, ◌+◌, ◌-◌, ◌*◌, ◌/◌, ◌%◌, ◌^◌, ◌<◌, ◌≡◌, refl, ap, ap₂, ◌∙◌, arith,
}
use libatbus_go.Base.{List, [], ◌∷◌, ◌++◌, length, length-append, reverse, append_assoc, ◌≢◌}
use libatbus_go.Base.{if◌then◌else◌, ◌==◌}
use libatbus_go.Base.Bits.{low_bits, top_bit, or_group}
use libatbus_go.Buffer.Vint.{IsU64, read_vint_loop, read_vint}
use mathlib.Core.List.{reverse-cons}

-- The groups of `v`, lowest first, each with the top bit set, for `v` below 128 ^ k.
unfoldable pub high_groups : ℕ → ℕ → List ℕ
high_groups zero v = []
high_groups (suc k) v =
    let rest = high_groups k (v / 128) in if v == 0 then [] else (v % 128 + 128) ∷ rest

-- The encoding of `v` below 128 ^ (k + 1).
abbrev pub encoding : ℕ → ℕ → List ℕ
encoding k v = reverse (high_groups k (v / 128)) ++ (v % 128 ∷ [])

pub length-reverse : (xs : List ℕ) → length (reverse xs) ≡ length xs
length-reverse [] = refl
length-reverse (x ∷ xs) =
    ap length (reverse-cons x xs)
    ∙ omega (arith, length-append (reverse xs) (x ∷ []), length-reverse xs)

read_inner :
    (total g out : ℕ) (b : ℕ) (rest : List ℕ)
    → g < 128
    → out < 2 ^ 57
    → read_vint_loop total ((g + 128) ∷ b ∷ rest) out
      ≡ read_vint_loop total (b ∷ rest) (out * 128 + g)
unfolding read_vint_loop
read_inner total g out b rest hg ho =
    ground (arith, low_bits (g + 128), top_bit (g + 128), or_group out g)

read_last :
    (total g out : ℕ) (rest : List ℕ)
    → g < 128
    → out < 2 ^ 57
    → read_vint_loop total (g ∷ rest) out ≡ (out * 128 + g, total - length rest)
unfolding read_vint_loop
read_last total g out rest hg ho = ground (arith, low_bits g, top_bit g, or_group out g)

pub high_groups-zero : (k : ℕ) → high_groups k 0 ≡ []
unfolding high_groups
high_groups-zero zero = refl
high_groups-zero (suc k) = refl

pub high_groups-pos :
    (k v : ℕ) → v ≢ 0 → high_groups (suc k) v ≡ (v % 128 + 128) ∷ high_groups k (v / 128)
unfolding high_groups
high_groups-pos k v h = ground arith

-- The bytes before the last one accumulate the high groups.
read_high :
    (k v total b : ℕ) (rest : List ℕ)
    → v < 128 ^ k
    → v < 2 ^ 57
    → read_vint_loop total (reverse (high_groups k v) ++ (b ∷ rest)) 0
      ≡ read_vint_loop total (b ∷ rest) v
read_high k zero total b rest h hv = rw high_groups-zero
read_high zero (suc v) total b rest h hv = absurd (omega arith)
read_high (suc k) (suc v) total b rest h hv =
    rw (high_groups-pos k (suc v) (omega arith), reverse-cons, append_assoc)
      (read_high k (suc v / 128) total (suc v % 128 + 128) (b ∷ rest) (omega arith) (omega arith)
        ∙ read_inner total (suc v % 128) (suc v / 128) b rest (omega arith) (omega arith)
        ∙ ap (read_vint_loop total (b ∷ rest)) (omega arith))

pub read_vint-append_cons :
    (front : List ℕ) (b : ℕ) (rest : List ℕ)
    → read_vint (front ++ (b ∷ rest))
      ≡ read_vint_loop (length (front ++ (b ∷ rest))) (front ++ (b ∷ rest)) 0
unfolding read_vint
read_vint-append_cons [] b rest = ground arith
read_vint-append_cons (x ∷ front) b rest = ground arith

-- Whatever follows an encoding, the reader takes the value and the length of the encoding.
pub read_vint-encoding :
    (k v : ℕ) (rest : List ℕ)
    → v < 128 ^ suc k
    → IsU64 v
    → read_vint (encoding k v ++ rest) ≡ (v, length (encoding k v))
read_vint-encoding k v rest h hv =
    let high = reverse (high_groups k (v / 128)) in
    let last : List ℕ = v % 128 ∷ [] in
    let total = length (high ++ (v % 128 ∷ rest)) in
    rw (append_assoc high last rest) (
      read_vint-append_cons high (v % 128) rest
      ∙ read_high k (v / 128) total (v % 128) rest (omega arith) (omega arith)
      ∙ read_last total (v % 128) (v / 128) rest (omega arith) (omega arith)
      ∙ ap₂ (λ (a n : ℕ). (a, n)) (omega arith)
          (omega (arith, length-append high (v % 128 ∷ rest), length-append high last)))
