-- ===== src/Buffer/Manager/Window.antt =====
-- A ring of slots holds a deque: the slot `k` places past the head is the deque's element `k`, and
-- nil past its end.
use libatbus_go.Base.{
  ℕ, subst, zero, suc, ◌+◌, ◌-◌, ◌%◌, ◌≤◌, ◌<◌, ◌≡◌, ◌≢◌, refl, sym, ap, ◌∙◌, arith, List, [], ◌∷◌,
  ◌++◌, Option, none, some, ◌⊎◌, inl, inr,
}
use libatbus_go.Base.{
  length, length-append, get_elem?, get_or, set, length-set, get_or-set_self, get_or-set_ne,
}
use libatbus_go.Buffer.Block.{BufferBlock}
use libatbus_go.Buffer.Manager.Types.{StaticStorage}
use libatbus_go.Buffer.Manager.Static.{circle_len, slot, before, after, put_front}
use native.Mathlib.Nat.{mod-eq_of_lt, mod-eq-sub-mod, mod-add-mod}
use native.Mathlib.Decide.{dec_lt, ℕ_discrete}

pub record Holds (sb : StaticStorage) (bs : List BufferBlock) : Type 0 where
  pub head_in : sb.head < circle_len sb
  pub room : length bs < circle_len sb
  pub tail_at : sb.tail ≡ (sb.head + length bs) % circle_len sb
  pub slots : (k : ℕ) → k < circle_len sb → slot sb ((sb.head + k) % circle_len sb) ≡ get_elem? bs k

-- A sum of two numbers below the modulus wraps at most once.
pub wraps_once : (n x : ℕ) → x < n + n → ((x < n) × (x % n ≡ x)) ⊎ ((n ≤ x) × (x % n ≡ x - n))
wraps_once n x h = elim (dec_lt x n) [
  | yes p ↦ inl (p, mod-eq_of_lt p)
  | no p ↦
      let e = mod-eq-sub-mod {n = x} {m = n} (omega arith) in
      inr (omega arith, e ∙ mod-eq_of_lt {n = x - n} {m = n} (omega arith))
]

-- Places fewer than a round apart are different slots.
pub place-ne : (n h j k : ℕ) → h < n → j < n → k < n → j ≢ k → (h + j) % n ≢ (h + k) % n
place-ne n h j k hh hj hk ne =
    ground (arith, wraps_once n (h + j) (omega arith), wraps_once n (h + k) (omega arith))

-- The place in front of the head, and the places seen from there.
pub place_before : (n h k : ℕ) → h < n → k < n → ((h + n - 1) % n + suc k) % n ≡ (h + k) % n
place_before n h k hh hk =
    let e : h + n - 1 + suc k ≡ h + k + n = omega arith in
    let d : h + k + n - n ≡ h + k = omega arith in
    rw (mod-add-mod, e) (mod-eq-sub-mod {n = h + k + n} {m = n} (omega arith) ∙ rw d)

pub place_after : (n h k : ℕ) → h < n → ((h + 1) % n + k) % n ≡ (h + suc k) % n
place_after n h k hh = let e : h + 1 + k ≡ h + suc k = omega arith in rw (mod-add-mod, e) refl

pub get_elem?-length :
    (bs cs : List BufferBlock) → get_elem? (bs ++ cs) (length bs) ≡ get_elem? cs 0
get_elem?-length [] cs = refl
get_elem?-length (b ∷ bs) cs = get_elem?-length bs cs

-- Lists with one front and at most one element more agree but at its place.
get_elem?-last :
    (rest old new : List BufferBlock) (k : ℕ)
    → length old ≤ 1
    → length new ≤ 1
    → k ≢ length rest
    → get_elem? (rest ++ old) k ≡ get_elem? (rest ++ new) k
get_elem?-last [] old new zero ho hn ne = absurd (ne refl)
get_elem?-last [] [] [] (suc k) ho hn ne = refl
get_elem?-last [] [] (c ∷ []) (suc k) ho hn ne = refl
get_elem?-last [] [] (c ∷ d ∷ new) (suc k) ho hn ne = absurd (omega arith)
get_elem?-last [] (b ∷ []) [] (suc k) ho hn ne = refl
get_elem?-last [] (b ∷ []) (c ∷ []) (suc k) ho hn ne = refl
get_elem?-last [] (b ∷ []) (c ∷ d ∷ new) (suc k) ho hn ne = absurd (omega arith)
get_elem?-last [] (b ∷ c ∷ old) new (suc k) ho hn ne = absurd (omega arith)
get_elem?-last (b ∷ rest) old new zero ho hn ne = refl
get_elem?-last (b ∷ rest) old new (suc k) ho hn ne =
    get_elem?-last rest old new k ho hn (λ e. ne (ap suc e))

pub get_elem?-past : (bs : List BufferBlock) (k : ℕ) → length bs ≤ k → get_elem? bs k ≡ none
get_elem?-past [] k h = refl
get_elem?-past (b ∷ bs) zero h = absurd (omega arith)
get_elem?-past (b ∷ bs) (suc k) h = get_elem?-past bs k (omega arith)

pub mod_in : (n x : ℕ) → 0 < n → x % n < n
mod_in n x h = omega arith

-- A write to the slot `j` places past the head shows at that place only.
module _ (sb : StaticStorage) (hin : sb.head < circle_len sb) (j : ℕ) (o : Option BufferBlock) where
  abbrev written : List (Option BufferBlock)
  written = set sb.circle_index ((sb.head + j) % circle_len sb) o

  written_self : get_or written ((sb.head + j) % circle_len sb) none ≡ o
  written_self =
      get_or-set_self sb.circle_index ((sb.head + j) % circle_len sb) o none
        (mod_in (circle_len sb) (sb.head + j) (omega arith))

  written_other :
      (k : ℕ)
      → j < circle_len sb
      → k < circle_len sb
      → k ≢ j
      → get_or written ((sb.head + k) % circle_len sb) none
        ≡ slot sb ((sb.head + k) % circle_len sb)
  written_other k hj hk ne =
      get_or-set_ne sb.circle_index ((sb.head + j) % circle_len sb) ((sb.head + k) % circle_len sb)
        o none (place-ne (circle_len sb) sb.head j k hin hj hk (λ e. ne (sym e)))

-- `Holds`, with a number in place of the length of the slots.
pub Holds-of :
    (sb : StaticStorage) (bs : List BufferBlock) (n : ℕ)
    → circle_len sb ≡ n
    → sb.head < n
    → length bs < n
    → sb.tail ≡ (sb.head + length bs) % n
    → ((k : ℕ) → k < n → slot sb ((sb.head + k) % n) ≡ get_elem? bs k)
    → Holds sb bs
Holds-of sb bs n e hh hr ht hs = record {
  head_in = rw e hh;
  room = rw e hr;
  tail_at = rw e ht;
  slots = λ k hk. rw e (hs k (rw e at hk));
}

-- A ring that holds `rest` and at most one block behind it holds at most one other block there after
-- a write at that place.
pub write_back-Holds :
    (sb : StaticStorage) (rest old new : List BufferBlock)
    → Holds sb (rest ++ old)
    → length old ≤ 1
    → length new ≤ 1
    → length (rest ++ new) < circle_len sb
    → Holds
        (record sb {
          circle_index =
              set sb.circle_index ((sb.head + length rest) % circle_len sb) (get_elem? new 0);
          tail = (sb.head + length (rest ++ new)) % circle_len sb;
        })
        (rest ++ new)
write_back-Holds sb rest old new h ho hn hr =
    let n = circle_len sb in
    let j = length rest in
    let hj : j < n = omega (arith, length-append rest new) in
    Holds-of _ (rest ++ new) n (length-set sb.circle_index ((sb.head + j) % n) (get_elem? new 0))
      h.head_in hr refl
      (λ k hk. elim (ℕ_discrete k j) [
        | yes e ↦
            rw e (written_self sb h.head_in j (get_elem? new 0) ∙ sym (get_elem?-length rest new))
        | no ne ↦
            written_other sb h.head_in j (get_elem? new 0) k hj hk ne
            ∙ h.slots k hk
            ∙ get_elem?-last rest old new k ho hn ne
      ])

pub place_zero : (n h : ℕ) → h < n → (h + 0) % n ≡ h
place_zero n h hh = ap (λ x. x % n) (omega arith) ∙ mod-eq_of_lt hh

pub place_round : (n h : ℕ) → h < n → (h + n) % n ≡ h
place_round n h hh =
    let d : h + n - n ≡ h = omega arith in
    mod-eq-sub-mod {n = h + n} {m = n} (omega arith) ∙ ap (λ x. x % n) d ∙ mod-eq_of_lt hh

-- A block in front of the head.
pub put_front-Holds :
    (sb : StaticStorage) (rest : List BufferBlock) (b : BufferBlock)
    → Holds sb rest
    → length rest + 1 < circle_len sb
    → Holds (put_front sb b) (b ∷ rest)
put_front-Holds sb rest b h hr =
    let n = circle_len sb in
    let p = before sb sb.head in
    let p_in : p < n = mod_in n (sb.head + n - 1) (omega arith) in
    let back : p ≡ (sb.head + (n - 1)) % n = ap (λ x. x % n) (omega arith) in
    let c = set sb.circle_index p (some b) in
    Holds-of (put_front sb b) (b ∷ rest) n (length-set sb.circle_index p (some b)) p_in
      (omega arith) (h.tail_at ∙ sym (place_before n sb.head (length rest) h.head_in (omega arith)))
      (elim [
        | zero ↦ λ hk.
            ap (λ i. get_or c i none) (place_zero n p p_in)
            ∙ get_or-set_self sb.circle_index p (some b) none p_in
        | suc k ↦ λ hk.
            ap (λ i. get_or c i none) (place_before n sb.head k h.head_in (omega arith))
            ∙ get_or-set_ne sb.circle_index p ((sb.head + k) % n) (some b) none (λ e.
              place-ne n sb.head (n - 1) k h.head_in (omega arith) (omega arith) (omega arith)
                (sym back ∙ e))
            ∙ h.slots k (omega arith)
      ])

-- The front block freed.
pub free_front-Holds :
    (sb : StaticStorage) (rest : List BufferBlock) (b : BufferBlock)
    → Holds sb (b ∷ rest)
    → Holds
        (record sb { circle_index = set sb.circle_index sb.head none; head = after sb sb.head })
        rest
free_front-Holds sb rest b h =
    let n = circle_len sb in
    let p = after sb sb.head in
    let c = set sb.circle_index sb.head none in
    Holds-of _ rest n (length-set sb.circle_index sb.head none)
      (mod_in n (sb.head + 1) (omega arith)) (omega arith)
      (h.tail_at ∙ sym (place_after n sb.head (length rest) h.head_in))
      (λ k hk.
        ap (λ i. get_or c i none) (place_after n sb.head k h.head_in) ∙ elim (dec_lt (suc k) n) [
          | yes lt ↦
              get_or-set_ne sb.circle_index sb.head ((sb.head + suc k) % n) none none (λ e.
                place-ne n sb.head 0 (suc k) h.head_in (omega arith) lt (omega arith)
                  (place_zero n sb.head h.head_in ∙ e))
              ∙ h.slots (suc k) lt
          | no ge ↦
              let last : suc k ≡ n = omega arith in
              ap (λ i. get_or c ((sb.head + i) % n) none) last
              ∙ ap (λ i. get_or c i none) (place_round n sb.head h.head_in)
              ∙ get_or-set_self sb.circle_index sb.head none none h.head_in
              ∙ sym (get_elem?-past rest k (omega arith))
        ])

-- The front block changed.
pub set_front-Holds :
    (sb : StaticStorage) (rest : List BufferBlock) (b b' : BufferBlock)
    → Holds sb (b ∷ rest)
    → Holds (record sb { circle_index = set sb.circle_index sb.head (some b') }) (b' ∷ rest)
set_front-Holds sb rest b b' h =
    let n = circle_len sb in
    let p = (sb.head + 0) % n in
    let at_head : Holds (record sb { circle_index = set sb.circle_index p (some b') }) (b' ∷ rest) =
      Holds-of _ (b' ∷ rest) n (length-set sb.circle_index p (some b')) h.head_in (omega arith)
        h.tail_at
        (elim [
          | zero ↦ λ hk. written_self sb h.head_in 0 (some b')
          | suc k ↦ λ hk.
              written_other sb h.head_in 0 (some b') (suc k) (omega arith) hk (omega arith)
              ∙ h.slots (suc k) hk
        ]) in
    subst (λ i. Holds (record sb { circle_index = set sb.circle_index i (some b') }) (b' ∷ rest))
      (place_zero n sb.head h.head_in) at_head
