-- ===== src/Buffer/Manager/Tests.antt =====
-- Managers in both modes, and the theorems on them.
use libatbus_go.Base.{zero, ◌<◌, ◌≡◌, refl, arith, [], ◌∷◌, ◌++◌, none, some, true, ◌⊎◌, returns}
use libatbus_go.Buffer.Block.{BufferBlock, size}
use libatbus_go.Buffer.Manager.Types.{err, buff_limit, no_data, BufferManager}
use libatbus_go.Buffer.Manager.Dynamic.{front?, back?, is_empty}
use libatbus_go.Buffer.Manager.Ops.{
  new_buffer_manager, is_static_mode, set_mode, push_back, push_front, pop_back, pop_front, empty,
  count, front, back,
}
use libatbus_go.Buffer.Manager.Deque.{total, after_pop}
use libatbus_go.Buffer.Manager.View.{Keeps, manager}
use libatbus_go.Buffer.Manager.View.Push.{Exceeds, Pushed, push_back_lem, push_front_lem}
use libatbus_go.Buffer.Manager.View.Pop.{Popped, pop_back_lem, pop_front_lem}
use libatbus_go.Buffer.Manager.View.Observe.{set_mode_lem, observe_lem, pop_empty_lem}

-- A ring for at most 2 blocks and 64 bytes.
abbrev ring : BufferManager
ring = set_mode 64 2 new_buffer_manager

ring-Keeps : Keeps ring []
ring-Keeps = (set_mode_lem 64 2 new_buffer_manager).0

set_mode_lem_example :
    Keeps (set_mode 64 2 new_buffer_manager) []
    × Keeps new_buffer_manager []
    × (((0 < 64)
          × (0 < 2)
          × (is_static_mode (set_mode 64 2 new_buffer_manager) ≡ true)
          × ((set_mode 64 2 new_buffer_manager).limit.limit_size ≡ 64)
          × ((set_mode 64 2 new_buffer_manager).limit.limit_number ≡ 2))
        ⊎ (((64 ≡ zero) ⊎ (2 ≡ zero)) × (set_mode 64 2 new_buffer_manager ≡ new_buffer_manager)))
set_mode_lem_example = set_mode_lem 64 2 new_buffer_manager

push_back_lem_example :
    (Exceeds ring.limit 16 [] × (push_back 16 ring ≡ returns (err buff_limit, ring)))
    ⊎ (¬ Exceeds ring.limit 16 []
        × (b : BufferBlock) × Pushed 16 (push_back 16 ring) b ([] ++ (b ∷ [])))
push_back_lem_example = push_back_lem 16 ring [] ring-Keeps (omega arith)

push_front_lem_example :
    (Exceeds ring.limit 16 [] × (push_front 16 ring ≡ returns (err buff_limit, ring)))
    ⊎ (¬ Exceeds ring.limit 16 [] × (b : BufferBlock) × Pushed 16 (push_front 16 ring) b (b ∷ []))
push_front_lem_example = push_front_lem 16 ring [] ring-Keeps (omega arith)

-- A list of two blocks, of which the first has been read in part.
abbrev first : BufferBlock
first = record { bytes = 1 ∷ 2 ∷ 3 ∷ []; used = 1 }

abbrev second : BufferBlock
second = record { bytes = 4 ∷ 5 ∷ []; used = 0 }

abbrev two : BufferManager
two =
    manager (first ∷ second ∷ []) none
      (record { cost_number = 2; cost_size = 4; limit_number = 0; limit_size = 0 })

two-Keeps : Keeps two (first ∷ second ∷ [])
unfolding total size
two-Keeps = record {
  stored = refl;
  costs = record { number = refl; bytes = refl };
  valid = (omega arith, (omega arith, tt));
}

pop_back_lem_example : Popped (pop_back 2 true two) ((first ∷ []) ++ after_pop 2 true second)
pop_back_lem_example = pop_back_lem 2 true two (first ∷ []) second two-Keeps

pop_front_lem_example : Popped (pop_front 1 true two) (after_pop 1 true first ++ (second ∷ []))
pop_front_lem_example = pop_front_lem 1 true two first (second ∷ []) two-Keeps

observe_lem_example :
    (empty two ≡ is_empty (first ∷ second ∷ []))
    × (count two ≡ 2)
    × (front two ≡ front? (first ∷ second ∷ []))
    × (back two ≡ back? (first ∷ second ∷ []))
observe_lem_example = observe_lem two (first ∷ second ∷ []) two-Keeps

pop_empty_lem_example :
    (pop_back 1 true ring ≡ (some no_data, ring)) × (pop_front 1 true ring ≡ (some no_data, ring))
pop_empty_lem_example = pop_empty_lem 1 true ring ring-Keeps
