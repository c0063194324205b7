-- ===== src/IoStream/Frame/Pack.antt =====
-- `PackFrame` writes the frame of its payload at the front of the slice, if it fits.
use libatbus_go.Base.{ℕ, ◌+◌, ◌-◌, ◌≤◌, ◌≡◌, sym, ap, ap₂, ◌∙◌, arith, append_assoc, append-nil}
use libatbus_go.Base.{
  List, ◌∷◌, ◌++◌, length, length-append, take, drop, copy_at, overwrite-fits, copy_at-append,
  length-take, length-drop, drop-all, drop-drop, le→ltb, ==-refl,
}
use libatbus_go.Buffer.Vint.{IsU64, write_vint, vint_encoded_size}
use libatbus_go.Buffer.Vint.Encoding.{encoding}
use libatbus_go.Buffer.Vint.Write.{vint_encoded_size_lem, write_vint_fits}
use libatbus_go.IoStream.Frame.{uint32_bytes, pack_frame}
use libatbus_go.IoStream.Frame.Layout.{frame_of, length-frame_of}

-- `WriteVint` on a slice of just the encoded size
write_exact :
    (v : ℕ) (tail : List ℕ)
    → IsU64 v
    → vint_encoded_size v ≤ length tail
    → write_vint v (take (vint_encoded_size v) tail) ≡ (vint_encoded_size v, encoding 9 v)
write_exact v tail h fits =
    let n = vint_encoded_size v in
    let long : length (take n tail) ≡ n = omega (arith, length-take n tail) in
    write_vint_fits v (take n tail) h (omega arith)
    ∙ ap (λ t. (n, encoding 9 v ++ t)) (drop-all n (take n tail) (omega arith))
    ∙ ap (λ t. (n, t)) (append-nil (encoding 9 v))

-- Writing two parts one behind the other, past a front of four bytes.
copy_two :
    (w x y z : ℕ) (tail enc payload : List ℕ)
    → length enc + length payload ≤ length tail
    → copy_at (4 + length enc) (copy_at 4 (w ∷ x ∷ y ∷ z ∷ tail) enc) payload
      ≡ w ∷ x ∷ y ∷ z ∷ (enc ++ (payload ++ drop (length enc + length payload) tail))
copy_two w x y z tail enc payload h =
    let front = w ∷ x ∷ y ∷ z ∷ enc in
    let rest = drop (length enc) tail in
    let long : length rest ≡ length tail - length enc = length-drop (length enc) tail in
    let e : 4 + length enc ≡ length front = omega arith in
    rw (overwrite-fits tail enc (omega arith), e)
      (copy_at-append front rest payload
        ∙ ap (λ t. front ++ t) (overwrite-fits rest payload (omega arith))
        ∙ ap (λ t. front ++ (payload ++ t)) (drop-drop (length payload) (length enc) tail))

module _ (sum32 : List ℕ → ℕ) where
  -- `PackFrame` with room for the frame returns its length and writes it at the front of the slice:
  -- the hash, the encoded length and the payload. The bytes behind it stay.
  pub pack_frame_fits :
      (payload frame : List ℕ)
      → IsU64 (length payload)
      → length (frame_of sum32 payload) ≤ length frame
      → pack_frame sum32 payload frame ≡ (
        length (frame_of sum32 payload),
        frame_of sum32 payload ++ drop (length (frame_of sum32 payload)) frame,
      )
  unfolding pack_frame
  pack_frame_fits payload (a ∷ b ∷ c ∷ d ∷ tail) h fits =
      let n = vint_encoded_size (length payload) in
      let enc = encoding 9 (length payload) in
      let size : n ≡ length enc = vint_encoded_size_lem (length payload) h in
      let total : length (enc ++ payload) ≡ length enc + length payload =
        length-append enc payload in
      let e : 4 + n - 4 ≡ n = omega arith in
      let full = length-frame_of sum32 payload h in
      rw
        (
          le→ltb (length (a ∷ b ∷ c ∷ d ∷ tail)) (4 + n + length payload) (omega arith),
          e,
          write_exact (length payload) tail h (omega arith),
          ==-refl n,
          size,
        )
        (ap₂ (λ (k : ℕ) (out : List ℕ). (k, out)) (omega arith)
          (copy_two _ _ _ _ tail enc payload (omega arith)
            ∙ ap (λ t. uint32_bytes (sum32 payload) ++ t)
                (rw total
                  (sym (append_assoc enc payload (drop (length enc + length payload) tail))))))
  pack_frame_fits payload frame h fits = absurd (omega (arith, length-frame_of sum32 payload h))
