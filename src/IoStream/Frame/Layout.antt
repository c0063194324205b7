-- ===== src/IoStream/Frame/Layout.antt =====
-- The bytes of a frame, in plain arithmetic.
use libatbus_go.Base.{ℕ, ◌+◌, ◌≡◌, ◌∙◌, arith}
use libatbus_go.Base.{List, ◌++◌, length, length-append}
use libatbus_go.Buffer.Vint.{IsU64, vint_encoded_size}
use libatbus_go.Buffer.Vint.Encoding.{encoding}
use libatbus_go.Buffer.Vint.Write.{vint_encoded_size_lem}
use libatbus_go.IoStream.Frame.{IsU32, uint32_bytes, uint32_value}

pub uint32_value-uint32_bytes : (v : ℕ) → IsU32 v → uint32_value (uint32_bytes v) ≡ v
uint32_value-uint32_bytes v h = omega arith

module _ (sum32 : List ℕ → ℕ) where
  abbrev pub header : List ℕ → List ℕ
  header payload = uint32_bytes (sum32 payload) ++ encoding 9 (length payload)

  abbrev pub frame_of : List ℕ → List ℕ
  frame_of payload = header payload ++ payload

  pub length-header :
      (payload : List ℕ)
      → IsU64 (length payload)
      → length (header payload) ≡ 4 + vint_encoded_size (length payload)
  length-header payload h =
      length-append (uint32_bytes (sum32 payload)) (encoding 9 (length payload))
      ∙ omega (arith, vint_encoded_size_lem (length payload) h)

  pub length-frame_of :
      (payload : List ℕ)
      → IsU64 (length payload)
      → length (frame_of payload) ≡ 4 + vint_encoded_size (length payload) + length payload
  length-frame_of payload h =
      length-append (header payload) payload ∙ omega (arith, length-header payload h)
