-- ===== src/Buffer/Manager/View/Pop.antt =====
-- `PopBack` and `PopFront`.
use libatbus_go.Base.{
  ℕ, ◌+◌, ◌≡◌, refl, ap, ◌∙◌, arith, List, [], ◌∷◌, ◌++◌, Option, none, some, Bool, subst,
}
use libatbus_go.Base.{length, length-append, All}
use libatbus_go.Buffer.Block.{BufferBlock, size, pop}
use libatbus_go.Buffer.Block.Laws.{IsValid}
use libatbus_go.Buffer.Manager.Types.{Limit, StaticStorage, BufferManager, BufferError}
use libatbus_go.Buffer.Manager.Dynamic.{clamp, frees, dynamic_pop_back, dynamic_pop_front}
use libatbus_go.Buffer.Manager.Ops.{
  pop_back, pop_front, pop_back_in, pop_front_in, popped, with_dynamic,
}
use libatbus_go.Buffer.Manager.Deque.{
  All-split, dynamic_pop_back-snoc, dynamic_pop_front-cons, Costs, total, total-append, All-append,
  popped_back, popped_front, left_of, left_of_lem, after_pop, left_of-after_pop, fix_limit-Costs,
}
use libatbus_go.Buffer.Manager.RingPop.{
  limit_after, static_pop_back-Stored, static_pop_front-Stored,
}
use libatbus_go.Buffer.Manager.View.{Keeps, manager, Stored-InRing}

limit_after_lem :
    (n : ℕ) (free : Bool) (b : BufferBlock) (bs' : List BufferBlock) (l : Limit)
    → ((limit_after n free b bs' l).limit_number ≡ l.limit_number)
      × ((limit_after n free b bs' l).limit_size ≡ l.limit_size)
limit_after_lem n free b bs' l = ground arith

-- The costs and the blocks after a pop, where it leaves `bs'` of a deque with the block `b`.
left-Costs :
    (n : ℕ) (free : Bool) (b : BufferBlock) (l : Limit) (bs rest bs' : List BufferBlock)
    → Costs l bs
    → IsValid b
    → length bs ≡ length rest + 1
    → total bs ≡ total rest + size b
    → length bs' ≡ length rest + length (left_of n free b)
    → total bs' ≡ total rest + total (left_of n free b)
    → Costs (limit_after n free b bs' l) bs'
left-Costs n free b l bs rest bs' c v hn ht hn' ht' =
    let (valid, bytes, number) = left_of_lem n free b v in
    fix_limit-Costs (frees free (pop (clamp n b) b)) (clamp n b) l bs bs' c
      (omega (arith, hn, hn', number)) (omega (arith, ht, ht', bytes))

-- A successful pop that leaves the deque `bs`.
pub record Popped (r : Option BufferError × BufferManager) (bs : List BufferBlock) : Type 0 where
  pub after : BufferManager
  pub answers : r ≡ (none, after)
  pub keeps : Keeps after bs

pop_back_in_lem :
    (ds : List BufferBlock) (o : Option StaticStorage) (l : Limit) (rest : List BufferBlock)
    (b : BufferBlock) (n : ℕ) (free : Bool)
    → Keeps (manager ds o l) (rest ++ (b ∷ []))
    → Costs (limit_after n free b (popped_back n free b rest) l) (popped_back n free b rest)
    → All IsValid (popped_back n free b rest)
    → Popped (pop_back_in o n free (manager ds o l)) (popped_back n free b rest)
unfolding pop_back_in
pop_back_in_lem ds none l rest b n free k c v = record {
  after =
      manager (popped_back n free b rest) none (limit_after n free b (popped_back n free b rest) l);
  answers =
      ap (λ r. popped (with_dynamic (manager ds none l)) (manager ds none l) r)
        (ap (λ t. dynamic_pop_back n free t l) k.stored ∙ dynamic_pop_back-snoc n free l rest b);
  keeps = record { stored = refl; costs = c; valid = v };
}
pop_back_in_lem ds (some sb) l rest b n free k c v =
    let (sb', e, st) = static_pop_back-Stored n free sb l rest b k.stored.holds in
    let (same_number, same_size) = limit_after_lem n free b (popped_back n free b rest) l in
    record {
      after = manager ds (some sb') (limit_after n free b (popped_back n free b rest) l);
      answers = rw e refl;
      keeps = record {
        stored = Stored-InRing sb sb' l _ _ _ k.stored same_number same_size st;
        costs = c;
        valid = v;
      };
    }

-- A pop of `n` bytes at the back of a deque with a last block succeeds in both modes. Of that block
-- the first `n` unread bytes are read, or all where there are fewer; with `freeUnwritable` the block
-- is gone where none are left. The manager keeps the deque with what is left of it, at its cost.
pub pop_back_lem :
    (n : ℕ) (free : Bool) (m : BufferManager) (rest : List BufferBlock) (b : BufferBlock)
    → Keeps m (rest ++ (b ∷ []))
    → Popped (pop_back n free m) (rest ++ after_pop n free b)
unfolding pop_back total
pop_back_lem n free m rest b k =
    let bs' = popped_back n free b rest in
    let v = All-split rest (b ∷ []) k.valid in
    let left = left_of_lem n free b v.1.0 in
    subst (λ cs. Popped (pop_back n free m) (rest ++ cs)) (left_of-after_pop n free b v.1.0)
      (pop_back_in_lem m.dynamic_buffer m.static_buffer m.limit rest b n free k
        (left-Costs n free b m.limit (rest ++ (b ∷ [])) rest bs' k.costs v.1.0
          (length-append rest (b ∷ [])) (omega (arith, total-append rest (b ∷ [])))
          (length-append rest (left_of n free b)) (total-append rest (left_of n free b)))
        (All-append rest (left_of n free b) v.0 left.0))

pop_front_in_lem :
    (ds : List BufferBlock) (o : Option StaticStorage) (l : Limit) (rest : List BufferBlock)
    (b : BufferBlock) (n : ℕ) (free : Bool)
    → Keeps (manager ds o l) (b ∷ rest)
    → Costs (limit_after n free b (popped_front n free b rest) l) (popped_front n free b rest)
    → All IsValid (popped_front n free b rest)
    → Popped (pop_front_in o n free (manager ds o l)) (popped_front n free b rest)
unfolding pop_front_in
pop_front_in_lem ds none l rest b n free k c v = record {
  after =
      manager (popped_front n free b rest) none
        (limit_after n free b (popped_front n free b rest) l);
  answers =
      ap (λ r. popped (with_dynamic (manager ds none l)) (manager ds none l) r)
        (ap (λ t. dynamic_pop_front n free t l) k.stored ∙ dynamic_pop_front-cons n free l rest b);
  keeps = record { stored = refl; costs = c; valid = v };
}
pop_front_in_lem ds (some sb) l rest b n free k c v =
    let (sb', e, st) = static_pop_front-Stored n free sb l b rest k.stored.holds in
    let (same_number, same_size) = limit_after_lem n free b (popped_front n free b rest) l in
    record {
      after = manager ds (some sb') (limit_after n free b (popped_front n free b rest) l);
      answers = rw e refl;
      keeps = record {
        stored = Stored-InRing sb sb' l _ _ _ k.stored same_number same_size st;
        costs = c;
        valid = v;
      };
    }

-- A pop of `n` bytes at the front of a deque with a first block succeeds in both modes. Of that block
-- the first `n` unread bytes are read, or all where there are fewer; with `freeUnwritable` the block
-- is gone where none are left. The manager keeps the deque with what is left of it, at its cost.
pub pop_front_lem :
    (n : ℕ) (free : Bool) (m : BufferManager) (b : BufferBlock) (rest : List BufferBlock)
    → Keeps m (b ∷ rest)
    → Popped (pop_front n free m) (after_pop n free b ++ rest)
unfolding pop_front total
pop_front_lem n free m b rest k =
    let bs' = popped_front n free b rest in
    let left = left_of_lem n free b k.valid.0 in
    subst (λ cs. Popped (pop_front n free m) (cs ++ rest)) (left_of-after_pop n free b k.valid.0)
      (pop_front_in_lem m.dynamic_buffer m.static_buffer m.limit rest b n free k
        (left-Costs n free b m.limit (b ∷ rest) rest bs' k.costs k.valid.0 (omega arith)
          (omega arith) (omega (arith, length-append (left_of n free b) rest))
          (omega (arith, total-append (left_of n free b) rest)))
        (All-append (left_of n free b) rest left.0 k.valid.1))
