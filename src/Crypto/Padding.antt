-- ===== src/Crypto/Padding.antt =====
-- The padding of a text is removed again.
use libatbus_go.Base.{
  ℕ, zero, suc, ◌+◌, ◌-◌, ◌%◌, ◌≡◌, ◌≤◌, refl, ap, ◌∙◌, arith, [], ◌∷◌, ◌++◌, true, false, length,
  length-append, length-replicate, take, drop, replicate, get_or, take-append_left,
  drop-append_left,
}
use libatbus_go.Base.{◌==◌, ==-refl, ≢→==, ltb, leb, le→ltb}
use libatbus_go.Crypto.Session.{Bytes, ok}
use libatbus_go.Crypto.Cipher.{padding, padded, all_are, strip_padding}

get_or-replicate : (xs : Bytes) (k v : ℕ) → get_or (xs ++ replicate (suc k) v) (length xs + k) 0 ≡ v
get_or-replicate [] zero v = refl
get_or-replicate [] (suc k) v =
    ap (λ n. get_or (replicate (suc (suc k)) v) n 0) {y = suc k} (omega arith)
    ∙ ap (λ n. get_or (replicate (suc k) v) n 0) {y = 0 + k} (omega arith)
    ∙ get_or-replicate [] k v
get_or-replicate (x ∷ xs) k v =
    ap (λ n. get_or (x ∷ (xs ++ replicate (suc k) v)) n 0) {y = suc (length xs + k)} (omega arith)
    ∙ get_or-replicate xs k v

all_are-replicate : (k v : ℕ) → all_are v (replicate k v) ≡ true
all_are-replicate zero v = refl
all_are-replicate (suc k) v = rw (==-refl v) (all_are-replicate k v)

pos : (k : ℕ) → leb (suc k) 0 ≡ false
pos k = ground arith

-- Some bytes of a value that is their number, from 1 to 16, are a padding.
strip_padding-replicate :
    (xs : Bytes) (k : ℕ) → suc k ≤ 16 → strip_padding (xs ++ replicate (suc k) (suc k)) ≡ ok xs
unfolding strip_padding
strip_padding-replicate xs k h =
    let p = suc k in
    let ys = xs ++ replicate p p in
    let long : length ys ≡ length xs + p =
      length-append xs (replicate p p) ∙ ap (λ n. length xs + n) (length-replicate p p) in
    let at_end : length ys - 1 ≡ length xs + k = omega (arith, long) in
    let last : get_or ys (length ys - 1) 0 ≡ p =
      ap (λ n. get_or ys n 0) at_end ∙ get_or-replicate xs k p in
    let start : length ys - p ≡ length xs = omega (arith, long) in
    let some_bytes : (length ys == 0) ≡ false = ≢→== (length ys) 0 (λ e. omega (arith, e, long)) in
    let some_count : leb p 0 ≡ false = pos k in
    let within : ltb 16 p ≡ false = le→ltb 16 p h in
    let front : take (length xs) ys ≡ xs = take-append_left (length xs) xs (replicate p p) refl in
    let back : drop (length xs) ys ≡ replicate p p =
      drop-append_left (length xs) xs (replicate p p) refl in
    rw (some_bytes, last, start, some_count, within, front, back, all_are-replicate p p) refl

pub strip_padding-padded : (xs : Bytes) → strip_padding (padded 16 xs) ≡ ok xs
strip_padding-padded xs =
    let p = padding 16 xs in
    let k = p - 1 in
    let same : p ≡ suc k = omega arith in
    ap (λ n. strip_padding (xs ++ replicate n n)) same ∙ strip_padding-replicate xs k (omega arith)

pub length-padded : (xs : Bytes) → length (padded 16 xs) % 16 ≡ 0
length-padded xs =
    let p = padding 16 xs in omega (arith, length-append xs (replicate p p), length-replicate p p)

pub length-padded_pos : (xs : Bytes) → 16 ≤ length (padded 16 xs)
length-padded_pos xs =
    let p = padding 16 xs in omega (arith, length-append xs (replicate p p), length-replicate p p)
