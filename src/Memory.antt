-- ===== src/Memory.antt =====
-- Arena.c and MemoryManager.c: blocks that are cut from arenas of growing size. `malloc` is taken to
-- give memory; an `int` that would overflow is `none`.
pub mod Arenas
pub mod Blocks
mod Examples
use school_project.Common.{
  ℕ, ◌+◌, ◌-◌, ◌*◌, ◌/◌, ◌^◌, Bool, true, false, Option, none, some, List, [], ◌∷◌, ltb, ◌==◌,
  if◌then◌else◌, ◌>>=◌, length,
}

-- `Arena`: `free` counts from `bytes`, and `last` is `bytes + size`.
pub record Arena : Type 0 where
  pub free : ℕ
  pub size : ℕ

abbrev pub default_arena_size : ℕ
default_arena_size = 2 ^ 27

-- (size + BIT_TO_CLEAR) & ~BIT_TO_CLEAR, for pointers of 8 bytes, converted to int.
unfoldable pub round_up : ℕ → Option ℕ
round_up size = if ltb ((size + 7) / 8 * 8) (2 ^ 31) then some ((size + 7) / 8 * 8) else none

unfoldable pub new_arena : ℕ → Option Arena
new_arena size = do
  s ← round_up size
  some (record { free = 0; size = if ltb s default_arena_size then default_arena_size else s })

-- What is returned: NULL, or the place where the block starts.
unfoldable pub alloc_from_arena : Arena → ℕ → Option (Option ℕ × Arena)
alloc_from_arena a size = if size == 0 then some (none, a) else do
  s ← round_up size
  (if ltb a.size (a.free + s)
      then some (none, a)
      else some (some a.free, record a { free = a.free + s }))

-- `MemoryManager`: the arena in use and those behind its `next`.
pub record MemoryManager : Type 0 where
  pub arena : List Arena
  pub bytes_allocated : ℕ
  pub number_of_arena_in_career : ℕ

unfoldable pub new_memory_manager : Option MemoryManager
new_memory_manager = do
  a ← new_arena default_arena_size
  some (record { arena = a ∷ []; bytes_allocated = 0; number_of_arena_in_career = 1 })

unfoldable pub alloc_arena_in_mm : MemoryManager → ℕ → Option MemoryManager
alloc_arena_in_mm mm size = do
  a ← new_arena size
  (if ltb (mm.bytes_allocated + size) (2 ^ 31)
      then some (record {
        arena = a ∷ mm.arena;
        bytes_allocated = mm.bytes_allocated + size;
        number_of_arena_in_career = mm.number_of_arena_in_career + 1;
      })
      else none)

-- if (mm->arena == NULL) alloc_arena_in_mm(mm, size);
unfoldable pub ensure_arena : MemoryManager → ℕ → Option MemoryManager
ensure_arena mm s = elim mm.arena [ [] ↦ alloc_arena_in_mm mm s | a ∷ rest ↦ some mm ]

-- if (mm->arena->free + size > mm->arena->last) alloc_arena_in_mm(mm, mm->arena->size << 1);
unfoldable pub ensure_room : MemoryManager → ℕ → Option MemoryManager
ensure_room mm s = elim mm.arena [
  | [] ↦ none
  | a ∷ rest ↦
      if ltb a.size (a.free + s)
      then (if ltb (a.size * 2) (2 ^ 31) then alloc_arena_in_mm mm (a.size * 2) else none)
      else some mm
]

-- return (void*)alloc_from_arena(mm->arena, size);
unfoldable pub alloc_from_first : MemoryManager → ℕ → Option (Option ℕ × MemoryManager)
alloc_from_first mm s = elim mm.arena [
  | [] ↦ none
  | a ∷ rest ↦ do r ← alloc_from_arena a s; some (r.0, record mm { arena = r.1 ∷ rest })
]

-- `alloc_from_mm`: a block is a place in the arena in use.
unfoldable pub alloc_from_mm : MemoryManager → ℕ → Option (Option ℕ × MemoryManager)
alloc_from_mm mm size = if size == 0 then some (none, mm) else do
  s ← round_up size
  mm₁ ← ensure_arena mm s
  mm₂ ← ensure_room mm₁ s
  alloc_from_first mm₂ s
