-- ===== src/Buffer/Manager/Types.antt =====
-- The records of buffer/buffer_manager.go, its errors, and the bookkeeping of its limits.
use libatbus_go.Base.{ℕ, ◌+◌, ◌-◌, List, Option, Bool, ◌&&◌}
use libatbus_go.Base.{ltb, leb, if◌then◌else◌}
use libatbus_go.Buffer.Block.{BufferBlock}

pub data BufferError : Type 0 where
  no_data buff_limit malloc : BufferError

pub data Result {ℓ} (A : Type ℓ) : Type ℓ where
  ok : A → Result A
  err : BufferError → Result A

-- `Limit`
pub record Limit : Type 0 where
  pub cost_number : ℕ
  pub cost_size : ℕ
  pub limit_number : ℕ
  pub limit_size : ℕ

-- `staticBufferStorage`
pub record StaticStorage : Type 0 where
  pub buffer : List ℕ
  pub circle_index : List (Option BufferBlock)
  pub head : ℕ
  pub tail : ℕ

-- `BufferManager`
pub record BufferManager : Type 0 where
  pub dynamic_buffer : List BufferBlock
  pub static_buffer : Option StaticStorage
  pub limit : Limit

-- The two guards of `PushBack` and `PushFront`; a limit of 0 is none.
abbrev pub over_number : Limit → Bool
over_number l = ltb 0 l.limit_number && leb l.limit_number l.cost_number

abbrev pub over_size : Limit → ℕ → Bool
over_size l size = ltb 0 l.limit_size && ltb l.limit_size (l.cost_size + size)

-- `m.limit.CostNumber++; m.limit.CostSize += size`
abbrev pub charge_block : Limit → ℕ → Limit
charge_block l size = record l { cost_number = l.cost_number + 1; cost_size = l.cost_size + size }

-- `m.limit.CostSize += size`
abbrev pub charge_size : Limit → ℕ → Limit
charge_size l size = record l { cost_size = l.cost_size + size }

-- `if m.limit.CostNumber > 0 { m.limit.CostNumber-- }`, run if a block was freed
abbrev pub release_block : Bool → Limit → Limit
release_block freed l =
    if freed && ltb 0 l.cost_number then record l { cost_number = l.cost_number - 1 } else l

-- "Fix limit", with whether nothing is left
abbrev pub fix_limit : Bool → ℕ → Limit → Limit
fix_limit empty size l =
    if empty
    then record l { cost_size = 0; cost_number = 0 }
    else if leb size l.cost_size
    then record l { cost_size = l.cost_size - size }
    else record l { cost_size = 0 }
