-- ===== src/Memory/Examples.antt =====
-- MemoryManager.c: requests to a new manager, and a witness.
use school_project.Common.{ℕ, ◌≡◌, ◌⊎◌, refl, Option, some, [], ◌∷◌, ◌>>=◌, arith}
use school_project.Memory.{
  MemoryManager, new_memory_manager, alloc_from_mm, ensure_arena, ensure_room, alloc_from_first,
  alloc_from_arena, new_arena, round_up, default_arena_size,
}
use school_project.Memory.Arenas.{fresh}
use school_project.Memory.Blocks.{alloc_from_mm-exact, InPlace, Grown, Refused}

abbrev one_arena : MemoryManager
one_arena = record {
  arena = fresh default_arena_size ∷ [];
  bytes_allocated = 0;
  number_of_arena_in_career = 1;
}

new_manager : new_memory_manager ≡ some one_arena
unfolding new_memory_manager new_arena round_up
new_manager = refl

-- The second block starts behind the first.
second_block :
    (do r ← alloc_from_mm one_arena 5; r' ← alloc_from_mm r.1 5; some r'.0) ≡ some (some 8)
unfolding alloc_from_mm ensure_arena ensure_room alloc_from_first alloc_from_arena round_up
second_block = refl

alloc_from_mm-exact_example :
    (r : Option ℕ) × (mm' : MemoryManager) × (alloc_from_mm one_arena 600000000 ≡ some (r, mm'))
    × (InPlace one_arena (fresh default_arena_size) [] 600000000 r mm'
        ⊎ (Grown one_arena (fresh default_arena_size) [] 600000000 r mm'
            ⊎ Refused one_arena (fresh default_arena_size) [] 600000000 r mm'))
alloc_from_mm-exact_example =
    alloc_from_mm-exact one_arena (fresh default_arena_size) [] 600000000 refl
      (omega arith, refl, refl, omega arith) (omega arith) (omega arith) (omega arith) (omega arith)
