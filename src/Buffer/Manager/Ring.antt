-- ===== src/Buffer/Manager/Ring.antt =====
-- What each operation of the static ring does to the deque that it holds.
use libatbus_go.Base.{
  ℕ, ◌+◌, ◌-◌, ◌%◌, ◌≤◌, ◌<◌, ◌≡◌, refl, sym, ap, ◌∙◌, subst, arith, List, [], ◌∷◌, ◌++◌,
  append-nil, none, some, false,
}
use libatbus_go.Base.{length, length-append, get_elem?, set, ==_iff, ≢→==}
use libatbus_go.Buffer.Block.{BufferBlock}
use libatbus_go.Buffer.Manager.Types.{StaticStorage}
use libatbus_go.Buffer.Manager.Dynamic.{is_empty}
use libatbus_go.Buffer.Manager.Static.{
  circle_len, slot, before, after, is_full, static_empty, put_back, reset_if_empty,
}
use libatbus_go.Buffer.Manager.Window
use native.Mathlib.Nat.{mod-add-mod, add-mod-mod, mod-eq-sub-mod}

-- The tail is `length bs` places past the head, and the place after it one more.
after_tail :
    (sb : StaticStorage) (bs : List BufferBlock)
    → Window.Holds sb bs
    → after sb sb.tail ≡ (sb.head + (length bs + 1)) % circle_len sb
after_tail sb bs h =
    let e : sb.head + length bs + 1 ≡ sb.head + (length bs + 1) = omega arith in
    rw (h.tail_at, mod-add-mod, e) refl

pub before_tail :
    (sb : StaticStorage) (rest : List BufferBlock) (b : BufferBlock)
    → Window.Holds sb (rest ++ (b ∷ []))
    → before sb sb.tail ≡ (sb.head + length rest) % circle_len sb
before_tail sb rest b h =
    let n = circle_len sb in
    let m = sb.head + length (rest ++ (b ∷ [])) in
    let long : length (rest ++ (b ∷ [])) ≡ length rest + 1 = length-append rest (b ∷ []) in
    let here = h.head_in in
    let one : m % n + n - 1 ≡ m % n + (n - 1) = omega (arith, here) in
    let back : m + (n - 1) - n ≡ sb.head + length rest = omega (arith, here, long) in
    let enough : n ≤ m + (n - 1) = omega (arith, here, long) in
    ap (λ t. (t + n - 1) % n) h.tail_at
    ∙ ap (λ x. x % n) one
    ∙ mod-add-mod m n (n - 1)
    ∙ mod-eq-sub-mod {n = m + (n - 1)} {m = n} enough
    ∙ ap (λ x. x % n) back

pub slot_head :
    (sb : StaticStorage) (bs : List BufferBlock)
    → Window.Holds sb bs
    → slot sb sb.head ≡ get_elem? bs 0
slot_head sb bs h =
    ap (slot sb) (sym (Window.place_zero (circle_len sb) sb.head h.head_in))
    ∙ h.slots 0 (omega (arith, h.room))

pub static_empty-Holds :
    (sb : StaticStorage) (bs : List BufferBlock)
    → Window.Holds sb bs
    → static_empty sb ≡ is_empty bs
static_empty-Holds sb [] h =
    (==_iff sb.head sb.tail).1
      (sym (h.tail_at ∙ Window.place_zero (circle_len sb) sb.head h.head_in))
static_empty-Holds sb (b ∷ bs) h =
    let n = circle_len sb in
    let ne =
      Window.place-ne n sb.head 0 (length (b ∷ bs)) h.head_in (omega (arith, h.room)) h.room
        (omega arith) in
    ≢→== sb.head sb.tail (λ e. ne (Window.place_zero n sb.head h.head_in ∙ e ∙ h.tail_at))

pub is_full-Holds :
    (sb : StaticStorage) (bs : List BufferBlock)
    → Window.Holds sb bs
    → length bs + 1 < circle_len sb
    → is_full sb ≡ false
is_full-Holds sb bs h room =
    let n = circle_len sb in
    ≢→== (after sb sb.tail) sb.head (λ e.
      Window.place-ne n sb.head (length bs + 1) 0 h.head_in room (omega (arith, room)) (omega arith)
        (sym (after_tail sb bs h) ∙ e ∙ sym (Window.place_zero n sb.head h.head_in)))

-- Every slot lies some places past the head, so an empty ring has none in use.
all_nil : (sb : StaticStorage) (i : ℕ) → Window.Holds sb [] → i < circle_len sb → slot sb i ≡ none
all_nil sb i h hi =
    let n = circle_len sb in
    let here = h.head_in in
    let k = (i + (n - sb.head)) % n in
    let round : sb.head + (i + (n - sb.head)) ≡ i + n = omega (arith, here) in
    let place : (sb.head + k) % n ≡ i =
      add-mod-mod sb.head (i + (n - sb.head)) n
      ∙ ap (λ x. x % n) round
      ∙ Window.place_round n i hi in
    ap (slot sb) (sym place) ∙ h.slots k (Window.mod_in n (i + (n - sb.head)) (omega (arith, here)))

pub restart-Holds :
    (sb : StaticStorage) → Window.Holds sb [] → Window.Holds (record sb { head = 0; tail = 0 }) []
restart-Holds sb h =
    let n = circle_len sb in
    let pos : 0 < n = omega (arith, h.head_in) in
    Window.Holds-of (record sb { head = 0; tail = 0 }) [] n refl pos pos
      (sym (Window.place_zero n 0 pos))
      (λ k hk. all_nil sb ((0 + k) % n) h (Window.mod_in n (0 + k) pos))

pub reset_if_empty-Holds :
    (sb : StaticStorage) (bs : List BufferBlock)
    → Window.Holds sb bs
    → Window.Holds (reset_if_empty sb) bs
reset_if_empty-Holds sb [] h = rw (static_empty-Holds sb [] h) (restart-Holds sb h)
reset_if_empty-Holds sb (b ∷ bs) h = rw (static_empty-Holds sb (b ∷ bs) h) h

pub put_back-Holds :
    (sb : StaticStorage) (bs : List BufferBlock) (b : BufferBlock)
    → Window.Holds sb bs
    → length bs + 1 < circle_len sb
    → Window.Holds (put_back sb b) (bs ++ (b ∷ []))
put_back-Holds sb bs b h room =
    let n = circle_len sb in
    let long : length (bs ++ (b ∷ [])) ≡ length bs + 1 = length-append bs (b ∷ []) in
    let behind : Window.Holds sb (bs ++ []) = subst (Window.Holds sb) (sym (append-nil bs)) h in
    let at_tail =
      Window.write_back-Holds sb bs [] (b ∷ []) behind (omega arith) (omega arith)
        (omega (arith, long, room)) in
    let end : (sb.head + length (bs ++ (b ∷ []))) % n ≡ after sb sb.tail =
      ap (λ x. (sb.head + x) % n) long ∙ sym (after_tail sb bs h) in
    subst
      (λ t.
        Window.Holds (record sb { circle_index = set sb.circle_index sb.tail (some b); tail = t })
          (bs ++ (b ∷ [])))
      end
      (subst
        (λ i.
          Window.Holds
            (record sb {
              circle_index = set sb.circle_index i (some b);
              tail = (sb.head + length (bs ++ (b ∷ []))) % n;
            })
            (bs ++ (b ∷ [])))
        (sym h.tail_at) at_tail)
