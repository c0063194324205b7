-- ===== src/IoStream/Receive/Stream.antt =====
-- A stream of frames, and what the bytes that have arrived of it show of its first frame.
use libatbus_go.Base.{
  ℕ, zero, suc, ◌+◌, ◌-◌, ◌^◌, ◌≤◌, ◌<◌, ◌≡◌, refl, sym, ap, ◌∙◌, arith, ◌⊎◌, inl, inr, false,
}
use libatbus_go.Base.{
  List, [], ◌∷◌, ◌++◌, length, length-append, get_or, take, drop, slice, length-drop, drop-drop,
}
use libatbus_go.Buffer.Vint.{read_vint, IsU64}
use libatbus_go.Buffer.Vint.Encoding.{encoding, read_vint-encoding}
use libatbus_go.Buffer.Vint.Read.{read_vint_prefix}
use libatbus_go.IoStream.Frame.{IsU32, uint32_bytes}
use libatbus_go.IoStream.Frame.Layout.{header, frame_of}
use libatbus_go.IoStream.Receive.{ReadLimits, too_big}

-- Of two ways to cut a list, one cuts first.
pub cut_cases :
    (a b c d : List ℕ)
    → a ++ b ≡ c ++ d
    → ((m : List ℕ) × (a ≡ c ++ m) × (m ++ b ≡ d))
      ⊎ ((x : ℕ) × (m : List ℕ) × (c ≡ a ++ (x ∷ m)) × (b ≡ (x ∷ m) ++ d))
cut_cases [] b [] d e = inl ([], refl, e)
cut_cases [] b (x ∷ m) d e = inr (x, m, refl, e)
cut_cases (x ∷ a) b [] d e = inl (x ∷ a, refl, e)
cut_cases (x ∷ a) b (y ∷ c) d e =
    let same : x ≡ y = ap (λ l. get_or l 0 x) e in
    elim (cut_cases a b c d (ap (drop 1) e)) [
      | inl (m, p, q) ↦ inl (m, (λ i. same i ∷ p i), q)
      | inr (z, m, p, q) ↦ inr (z, m, (λ i. sym same i ∷ p i), q)
    ]

pub drop-append_short :
    (k : ℕ) (w tail : List ℕ) → k ≤ length w → drop k (w ++ tail) ≡ drop k w ++ tail
drop-append_short zero w tail h = refl
drop-append_short (suc k) [] tail h = absurd (omega arith)
drop-append_short (suc k) (x ∷ w) tail h = drop-append_short k w tail (omega arith)

pub take-append_short : (k : ℕ) (w tail : List ℕ) → k ≤ length w → take k (w ++ tail) ≡ take k w
take-append_short zero w tail h = refl
take-append_short (suc k) [] tail h = absurd (omega arith)
take-append_short (suc k) (x ∷ w) tail h = ap (◌∷◌ x) (take-append_short k w tail (omega arith))

-- A slice inside the part `w` of a list that stands at `start`.
pub slice_window :
    (start a b : ℕ) (xs w tail : List ℕ)
    → drop start xs ≡ w ++ tail
    → b ≤ length w
    → a ≤ b
    → slice (start + a) (start + b) xs ≡ take (b - a) (drop a w)
slice_window start a b xs w tail e hb hab =
    let width : start + b - (start + a) ≡ b - a = omega arith in
    let long = length-drop a w in
    ap (λ n. take n (drop (start + a) xs)) width
    ∙ ap (take (b - a))
        (sym (drop-drop a start xs) ∙ ap (drop a) e ∙ drop-append_short a w tail (omega arith))
    ∙ take-append_short (b - a) (drop a w) tail (omega (arith, long))

module _ (sum32 : List ℕ → ℕ) where
  -- The bytes of some frames, one behind the other.
  unfoldable pub frames : List (List ℕ) → List ℕ
  frames [] = []
  frames (p ∷ ps) = frame_of sum32 p ++ frames ps

  -- A payload whose frame the read path accepts: its hash is a uint32, its frame has a length that
  -- an `int` holds with room to spare, and it is within the limit.
  abbrev pub IsSendable : ReadLimits → List ℕ → Type 0
  IsSendable c p =
      IsU32 (sum32 p) × (length (frame_of sum32 p) < 2 ^ 62) × (too_big c (length p) ≡ false)

  abbrev pub header_len : List ℕ → ℕ
  header_len p = 4 + length (encoding 9 (length p))

  pub header_len_lem : (p : List ℕ) → length (header sum32 p) ≡ header_len p
  header_len_lem p = length-append (uint32_bytes (sum32 p)) (encoding 9 (length p))

  pub frame_len_lem : (p : List ℕ) → length (frame_of sum32 p) ≡ header_len p + length p
  frame_len_lem p = length-append (header sum32 p) p ∙ omega (arith, header_len_lem p)

  -- A whole header, and what follows: `ReadVint` behind the hash finds the payload's length.
  pub reads_header :
      (p mid : List ℕ)
      → length (frame_of sum32 p) < 2 ^ 62
      → read_vint (drop 4 (header sum32 p ++ mid)) ≡ (length p, length (encoding 9 (length p)))
  reads_header p mid h =
      let long = frame_len_lem p in
      let small : IsU64 (length p) = omega (arith, long, h) in
      read_vint-encoding 9 (length p) mid (omega arith) small

  -- A part of a header: `ReadVint` behind the hash finds nothing.
  pub reads_part :
      (p w : List ℕ) (x : ℕ) (m : List ℕ)
      → header sum32 p ≡ w ++ (x ∷ m)
      → 4 < length w
      → read_vint (drop 4 w) ≡ (0, 0)
  reads_part p (a ∷ b ∷ c ∷ d ∷ w) x m e h = read_vint_prefix (length p) w x m (ap (drop 4) e)
  reads_part p w x m e h = absurd (omega arith)
