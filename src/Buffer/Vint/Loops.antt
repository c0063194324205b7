-- ===== src/Buffer/Vint/Loops.antt =====
-- The two loops of `WriteVint`: the one that writes the groups, and the one that swaps bytes.
use libatbus_go.Base.{
  snoc_cases, ℕ, zero, suc, ◌+◌, ◌-◌, ◌*◌, ◌/◌, ◌%◌, ◌^◌, ◌≤◌, ◌<◌, ◌≡◌, ◌≢◌, refl, sym, ap, ap₂,
  ◌∙◌, arith,
}
use libatbus_go.Base.{inl, inr}
use libatbus_go.Base.{List, [], ◌∷◌, ◌++◌, length, length-append, reverse, append_assoc}
use libatbus_go.Base.{drop, get_or, set, lt→ltb}
use libatbus_go.Base.Bits.{low_bits, set_top_bit}
use libatbus_go.Buffer.Vint.{Writer, write_group, write_groups, swap_loop}
use libatbus_go.Buffer.Vint.Encoding.{high_groups, high_groups-zero, high_groups-pos}
use mathlib.Core.List.{reverse-cons, reverse-append}

-- A write, and a read, just behind a known front.
set-append :
    (front : List ℕ) (b v : ℕ) (rest : List ℕ) (i : ℕ)
    → i ≡ length front
    → set (front ++ (b ∷ rest)) i v ≡ front ++ (v ∷ rest)
set-append [] b v rest zero e = refl
set-append [] b v rest (suc i) e = absurd (omega arith)
set-append (x ∷ front) b v rest zero e = absurd (omega arith)
set-append (x ∷ front) b v rest (suc i) e = ap (◌∷◌ x) (set-append front b v rest i (omega arith))

get_or-append :
    (front : List ℕ) (b d : ℕ) (rest : List ℕ) (i : ℕ)
    → i ≡ length front
    → get_or (front ++ (b ∷ rest)) i d ≡ b
get_or-append [] b d rest zero e = refl
get_or-append [] b d rest (suc i) e = absurd (omega arith)
get_or-append (x ∷ front) b d rest zero e = absurd (omega arith)
get_or-append (x ∷ front) b d rest (suc i) e = get_or-append front b d rest i (omega arith)

abbrev pub writer : ℕ → List ℕ → ℕ → ℕ → Writer
writer value buf used d = record { value = value; buf = buf; used = used; d = d }

-- One round writes the lowest group of the value behind the bytes already written.
write_groups_step :
    (fuel value used d r : ℕ) (front rest : List ℕ)
    → value ≢ 0
    → used ≡ length front
    → used ≡ d + 1
    → write_groups (suc fuel) (writer value (front ++ (r ∷ rest)) used d)
      ≡ write_groups fuel
          (writer (value / 128) ((front ++ ((value % 128 + 128) ∷ [])) ++ rest) (used + 1) (d + 1))
unfolding write_groups write_group
write_groups_step fuel value used d r front rest h hu hd = ground (
  arith,
  length-append front (r ∷ rest),
  low_bits value,
  set_top_bit (value % 128) (omega arith),
  set-append front r (value % 128 + 128) rest (d + 1) (omega arith),
  append_assoc front ((value % 128 + 128) ∷ []) rest,
)

write_groups_done :
    (fuel used d : ℕ) (buf : List ℕ) → write_groups fuel (writer 0 buf used d) ≡ writer 0 buf used d
unfolding write_groups
write_groups_done zero used d buf = refl
write_groups_done (suc fuel) used d buf = refl

write_groups_full :
    (fuel value used d : ℕ) (front : List ℕ)
    → used ≡ length front
    → write_groups fuel (writer value (front ++ []) used d) ≡ writer value (front ++ []) used d
unfolding write_groups
write_groups_full zero value used d front h = refl
write_groups_full (suc fuel) value used d front h = ground (arith, length-append front [])

writer_ext :
    {v used used' d d' : ℕ} {buf buf' : List ℕ}
    → buf ≡ buf'
    → used ≡ used'
    → d ≡ d'
    → writer v buf used d ≡ writer v buf' used' d'
writer_ext p q r = cc

-- With room for the high groups, the loop writes them and ends with nothing left.
pub write_groups_fits :
    (k fuel value used d : ℕ) (front rest : List ℕ)
    → value < 128 ^ k
    → used ≡ length front
    → used ≡ d + 1
    → length rest ≤ fuel
    → length (high_groups k value) ≤ length rest
    → let high = high_groups k value in
      write_groups fuel (writer value (front ++ rest) used d)
      ≡ writer 0 (front ++ (high ++ drop (length high) rest)) (used + length high) (d + length high)
write_groups_fits k fuel zero used d front rest h hu hd hf hl =
    rw (write_groups_done, high_groups-zero)
      (ap₂ (writer 0 (front ++ rest)) (omega arith) (omega arith))
write_groups_fits zero fuel (suc v) used d front rest h hu hd hf hl = absurd (omega arith)
write_groups_fits (suc k) fuel (suc v) used d front [] h hu hd hf hl =
    absurd (omega (arith, ap length (high_groups-pos k (suc v) (omega arith))))
write_groups_fits (suc k) zero (suc v) used d front (r ∷ rest) h hu hd hf hl = absurd (omega arith)
write_groups_fits (suc k) (suc fuel) (suc v) used d front (r ∷ rest) h hu hd hf hl =
    let g : ℕ = suc v % 128 + 128 in
    let front' = front ++ (g ∷ []) in
    let high = high_groups k (suc v / 128) in
    let e = high_groups-pos k (suc v) (omega arith) in
    let long : length front' ≡ length front + 1 = length-append front (g ∷ []) in
    rw e (
      write_groups_step fuel (suc v) used d r front rest (omega arith) hu hd
      ∙ write_groups_fits k fuel (suc v / 128) (used + 1) (d + 1) front' rest (omega arith)
          (omega arith) (omega arith) (omega arith) (omega (arith, ap length e))
      ∙ writer_ext (append_assoc front (g ∷ []) (high ++ drop (length high) rest)) (omega arith)
          (omega arith))

-- Without room for them, it stops with a part of the value left.
pub write_groups_short :
    (k fuel value used d : ℕ) (front rest : List ℕ)
    → value < 128 ^ k
    → used ≡ length front
    → used ≡ d + 1
    → length rest ≤ fuel
    → length rest < length (high_groups k value)
    → (write_groups fuel (writer value (front ++ rest) used d)).value ≢ 0
write_groups_short k fuel zero used d front rest h hu hd hf hl =
    absurd (omega (arith, ap length (high_groups-zero k)))
write_groups_short zero fuel (suc v) used d front rest h hu hd hf hl = absurd (omega arith)
write_groups_short (suc k) fuel (suc v) used d front [] h hu hd hf hl =
    rw (write_groups_full fuel (suc v) used d front hu) (omega arith)
write_groups_short (suc k) zero (suc v) used d front (r ∷ rest) h hu hd hf hl = absurd (omega arith)
write_groups_short (suc k) (suc fuel) (suc v) used d front (r ∷ rest) h hu hd hf hl =
    let g : ℕ = suc v % 128 + 128 in
    let front' = front ++ (g ∷ []) in
    let e = high_groups-pos k (suc v) (omega arith) in
    let long : length front' ≡ length front + 1 = length-append front (g ∷ []) in
    rw (write_groups_step fuel (suc v) used d r front rest (omega arith) hu hd) (
      write_groups_short k fuel (suc v / 128) (used + 1) (d + 1) front' rest (omega arith)
        (omega arith) (omega arith) (omega arith) (omega (arith, ap length e)))

swap_loop-stop : (fuel i j : ℕ) (buf : List ℕ) → j ≤ i → swap_loop fuel i j buf ≡ buf
unfolding swap_loop
swap_loop-stop zero i j buf h = refl
swap_loop-stop (suc fuel) i j buf h = ground arith

-- The two bytes just behind `front` and just before `back` change places.
swap_bytes :
    (x y : ℕ) (i j : ℕ) (front m back : List ℕ)
    → i ≡ length front
    → j ≡ i + length m + 1
    → let buf = front ++ (x ∷ (m ++ (y ∷ back))) in
      set (set buf i (get_or buf j 0)) j (get_or buf i 0) ≡ (front ++ (y ∷ [])) ++ (m ++ (x ∷ back))
swap_bytes x y i j front m back hi hj =
    let assoc = λ (a b : ℕ). append_assoc front (a ∷ m) (b ∷ back) in
    let e : j ≡ length (front ++ (x ∷ m)) = omega (arith, length-append front (x ∷ m)) in
    let e' : j ≡ length (front ++ (y ∷ m)) = omega (arith, length-append front (y ∷ m)) in
    cc (
      assoc x y,
      assoc y y,
      assoc y x,
      append_assoc front (y ∷ []) (m ++ (x ∷ back)),
      get_or-append front x 0 (m ++ (y ∷ back)) i hi,
      get_or-append (front ++ (x ∷ m)) y 0 back j e,
      set-append front x y (m ++ (y ∷ back)) i hi,
      set-append (front ++ (y ∷ m)) y x back j e',
    )

swap_loop_step :
    (fuel x y i j : ℕ) (front m back : List ℕ)
    → i ≡ length front
    → j ≡ i + length m + 1
    → swap_loop (suc fuel) i j (front ++ (x ∷ (m ++ (y ∷ back))))
      ≡ swap_loop fuel (i + 1) (j - 1) ((front ++ (y ∷ [])) ++ (m ++ (x ∷ back)))
unfolding swap_loop
swap_loop_step fuel x y i j front m back hi hj =
    rw (lt→ltb i j (omega arith), swap_bytes x y i j front m back hi hj)

-- The loop of swaps reverses the bytes between its two indices in place.
pub swap_loop-reverse :
    (fuel i j : ℕ) (front mid back : List ℕ)
    → i ≡ length front
    → j + 1 ≡ i + length mid
    → length mid ≤ 2 * fuel + 1
    → swap_loop fuel i j (front ++ (mid ++ back)) ≡ front ++ (reverse mid ++ back)
swap_loop-reverse fuel i j front [] back hi hj hf = swap_loop-stop fuel i j _ (omega arith)
swap_loop-reverse zero i j front (x ∷ []) back hi hj hf = swap_loop-stop zero i j _ (omega arith)
swap_loop-reverse zero i j front (x ∷ y ∷ mid) back hi hj hf = absurd (omega arith)
swap_loop-reverse (suc fuel) i j front (x ∷ xs) back hi hj hf = elim (snoc_cases xs) [
  | inl e ↦ rw e (swap_loop-stop (suc fuel) i j _ (omega (arith, ap length e)))
  | inr (m, y, e) ↦
      let long : length xs ≡ length m + 1 = ap length e ∙ length-append m (y ∷ []) in
      rw (e, append_assoc m (y ∷ []) back, reverse-cons, reverse-append)
        (swap_loop_step fuel x y i j front m back hi (omega arith)
          ∙ swap_loop-reverse fuel (i + 1) (j - 1) (front ++ (y ∷ [])) m (x ∷ back)
              (omega (arith, length-append front (y ∷ []))) (omega arith) (omega arith)
          ∙ append_assoc front (y ∷ []) (reverse m ++ (x ∷ back))
          ∙ ap (λ t. front ++ (y ∷ t)) (sym (append_assoc (reverse m) (x ∷ []) back)))
]
