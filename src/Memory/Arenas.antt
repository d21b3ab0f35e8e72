-- ===== src/Memory/Arenas.antt =====
-- Arena.c: what a new arena is, and what a request does to one arena.
use school_project.Common.{
  ℕ, ◌+◌, ◌*◌, ◌/◌, ◌%◌, ◌^◌, ◌≤◌, ◌<◌, ◌≡◌, refl, true, false, none, some, ltb, ◌==◌, arith,
}
use school_project.Memory.{Arena, round_up, new_arena, alloc_from_arena, default_arena_size}

-- The bytes that a request takes.
abbrev pub taken : ℕ → ℕ
taken size = (size + 7) / 8 * 8

abbrev pub IsArena : Arena → Type 0
IsArena a = (a.free ≤ a.size) × (a.free % 8 ≡ 0) × (a.size % 8 ≡ 0) × (default_arena_size ≤ a.size)

-- The block at `p` is in the arena, behind what was taken before, and the next one follows it.
pub record IsBlock (a : Arena) (size p : ℕ) (a' : Arena) : Type 0 where
  pub same_size : a'.size ≡ a.size
  pub behind : p ≡ a.free
  pub aligned : p % 8 ≡ 0
  pub inside : p + size ≤ a'.free
  pub ends : a'.free ≤ a'.size
  pub arena : IsArena a'

pub round_up-taken : (size : ℕ) → taken size < 2 ^ 31 → round_up size ≡ some (taken size)
unfolding round_up
round_up-taken size h = ground arith

taken_twice : (size : ℕ) → taken (taken size) ≡ taken size
taken_twice size = omega arith

round_same : (size : ℕ) → size % 8 ≡ 0 → (size + 7) / 8 * 8 ≡ size
round_same size h = omega arith

pub ltb-of_lt : (a b : ℕ) → a < b → ltb a b ≡ true
ltb-of_lt a b h = ground arith

pub ltb-of_le : (a b : ℕ) → b ≤ a → ltb a b ≡ false
ltb-of_le a b h = ground arith

positive : (size : ℕ) → 0 < size → (taken size == 0) ≡ false
positive size h = ground arith

pub non_zero : (size : ℕ) → 0 < size → (size == 0) ≡ false
non_zero size h = ground arith

abbrev pub fresh : ℕ → Arena
fresh size = record { free = 0; size = size }

pub new_arena-large :
    (size : ℕ)
    → size % 8 ≡ 0
    → default_arena_size ≤ size
    → size < 2 ^ 31
    → new_arena size ≡ some (fresh size)
unfolding new_arena round_up
new_arena-large size h k n =
    rw (round_same size h, ltb-of_lt size (2 ^ 31) n, ltb-of_le size default_arena_size k) refl

-- A request that fits into the arena in use.
pub alloc_from_arena-room :
    (a : Arena) (size : ℕ)
    → 0 < size
    → taken size < 2 ^ 31
    → a.free + taken size ≤ a.size
    → alloc_from_arena a (taken size) ≡ some (some a.free, record a { free = a.free + taken size })
unfolding alloc_from_arena round_up
alloc_from_arena-room a size pos small room =
    rw
      (
        positive size pos,
        taken_twice size,
        ltb-of_lt (taken size) (2 ^ 31) small,
        ltb-of_le a.size (a.free + taken size) room,
      )
      refl

pub alloc_from_arena-full :
    (a : Arena) (size : ℕ)
    → 0 < size
    → taken size < 2 ^ 31
    → a.size < a.free + taken size
    → alloc_from_arena a (taken size) ≡ some (none, a)
unfolding alloc_from_arena round_up
alloc_from_arena-full a size pos small full =
    rw
      (
        positive size pos,
        taken_twice size,
        ltb-of_lt (taken size) (2 ^ 31) small,
        ltb-of_lt a.size (a.free + taken size) full,
      )
      refl

pub IsBlock-of_room :
    (a : Arena) (size : ℕ)
    → IsArena a
    → a.free + taken size ≤ a.size
    → IsBlock a size a.free (record a { free = a.free + taken size })
IsBlock-of_room a size (f, g, h, k) room = record {
  same_size = refl;
  behind = refl;
  aligned = g;
  inside = omega arith;
  ends = room;
  arena = (room, omega arith, h, k);
}
