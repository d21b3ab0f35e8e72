-- ===== src/Memory/Blocks.antt =====
-- MemoryManager.c, `alloc_from_mm`: the blocks are in their arena, apart and aligned with it.
use school_project.Common.{
  ℕ, ◌+◌, ◌*◌, ◌^◌, ◌≤◌, ◌<◌, ◌≡◌, ◌⊎◌, refl, Option, none, some, List, ◌∷◌, ltb, arith, Bool-cases,
  inl, inr,
}
use school_project.Memory.{
  Arena, MemoryManager, alloc_from_arena, alloc_arena_in_mm, ensure_arena, ensure_room,
  alloc_from_first, alloc_from_mm,
}
use school_project.Memory.Arenas.{
  taken, IsArena, IsBlock, fresh, round_up-taken, ltb-of_lt, ltb-of_le, non_zero, new_arena-large,
  alloc_from_arena-room, alloc_from_arena-full, IsBlock-of_room,
}

-- What a request does: it is served from the arena in use, from a new one of twice its size, or
-- refused.
abbrev pub InPlace : MemoryManager → Arena → List Arena → ℕ → Option ℕ → MemoryManager → Type 0
InPlace mm a rest size r mm' =
    (a.free + taken size ≤ a.size)
    × (a' : Arena) × (r ≡ some a.free)
    × (mm' ≡ record mm { arena = a' ∷ rest })
    × IsBlock a size a.free a'

abbrev pub grown : MemoryManager → Arena → List Arena → Arena → MemoryManager
grown mm a rest a' = record {
  arena = a' ∷ a ∷ rest;
  bytes_allocated = mm.bytes_allocated + a.size * 2;
  number_of_arena_in_career = mm.number_of_arena_in_career + 1;
}

abbrev pub Grown : MemoryManager → Arena → List Arena → ℕ → Option ℕ → MemoryManager → Type 0
Grown mm a rest size r mm' =
    (a.size < a.free + taken size)
    × (taken size ≤ a.size * 2)
    × (a' : Arena) × (r ≡ some 0)
    × (mm' ≡ grown mm a rest a')
    × IsBlock (fresh (a.size * 2)) size 0 a'

abbrev pub Refused : MemoryManager → Arena → List Arena → ℕ → Option ℕ → MemoryManager → Type 0
Refused mm a rest size r mm' =
    (a.size * 2 < taken size) × (r ≡ none) × (mm' ≡ grown mm a rest (fresh (a.size * 2)))

alloc_arena_in_mm-grown :
    (mm : MemoryManager) (a : Arena) (rest : List Arena)
    → mm.arena ≡ a ∷ rest
    → IsArena a
    → a.size * 2 < 2 ^ 31
    → mm.bytes_allocated + a.size * 2 < 2 ^ 31
    → alloc_arena_in_mm mm (a.size * 2) ≡ some (grown mm a rest (fresh (a.size * 2)))
unfolding alloc_arena_in_mm
alloc_arena_in_mm-grown mm a rest e (f, g, h, k) n m =
    rw
      (
        new_arena-large (a.size * 2) (omega arith) (omega arith) n,
        ltb-of_lt (mm.bytes_allocated + a.size * 2) (2 ^ 31) m,
        e,
      )
      refl

alloc_from_first-of :
    (mm : MemoryManager) (a a' : Arena) (rest : List Arena) (s : ℕ) (r : Option ℕ)
    → mm.arena ≡ a ∷ rest
    → alloc_from_arena a s ≡ some (r, a')
    → alloc_from_first mm s ≡ some (r, record mm { arena = a' ∷ rest })
unfolding alloc_from_first
alloc_from_first-of mm a a' rest s r e f = rw (e, f) refl

ensure_arena-some :
    (mm : MemoryManager) (a : Arena) (rest : List Arena) (s : ℕ)
    → mm.arena ≡ a ∷ rest
    → ensure_arena mm s ≡ some mm
unfolding ensure_arena
ensure_arena-some mm a rest s e = rw e refl

-- Where `ensure_room` gives a manager, the request goes to its first arena.
alloc_from_mm-of :
    (mm mm' : MemoryManager) (a b b' : Arena) (rest rest' : List Arena) (size : ℕ) (r : Option ℕ)
    → mm.arena ≡ a ∷ rest
    → 0 < size
    → taken size < 2 ^ 31
    → ensure_room mm (taken size) ≡ some mm'
    → mm'.arena ≡ b ∷ rest'
    → alloc_from_arena b (taken size) ≡ some (r, b')
    → alloc_from_mm mm size ≡ some (r, record mm' { arena = b' ∷ rest' })
unfolding alloc_from_mm
alloc_from_mm-of mm mm' a b b' rest rest' size r e pos small room e' f =
    rw
      (
        non_zero size pos,
        round_up-taken size small,
        ensure_arena-some mm a rest (taken size) e,
        room,
        alloc_from_first-of mm' b b' rest' (taken size) r e' f,
      )
      refl

ensure_room-fits :
    (mm : MemoryManager) (a : Arena) (rest : List Arena) (s : ℕ)
    → mm.arena ≡ a ∷ rest
    → a.free + s ≤ a.size
    → ensure_room mm s ≡ some mm
unfolding ensure_room
ensure_room-fits mm a rest s e room = rw (e, ltb-of_le a.size (a.free + s) room) refl

ensure_room-grown :
    (mm : MemoryManager) (a : Arena) (rest : List Arena) (s : ℕ)
    → mm.arena ≡ a ∷ rest
    → IsArena a
    → a.size < a.free + s
    → a.size * 2 < 2 ^ 31
    → mm.bytes_allocated + a.size * 2 < 2 ^ 31
    → ensure_room mm s ≡ some (grown mm a rest (fresh (a.size * 2)))
unfolding ensure_room
ensure_room-grown mm a rest s e arena full n m =
    rw (e, ltb-of_lt a.size (a.free + s) full, ltb-of_lt (a.size * 2) (2 ^ 31) n)
      (rw e at (alloc_arena_in_mm-grown mm a rest e arena n m))

-- Let the request not be empty, and let no sum of sizes leave the range of an `int`. With an arena in
-- use, the request is served from it if there is room; else from a new arena of twice
-- its size if there is room in that; else it gets NULL, though the new arena is there. A block is
-- inside its arena, behind all that were taken, and at a multiple of 8 from the arena's first byte.
pub alloc_from_mm-exact :
    (mm : MemoryManager) (a : Arena) (rest : List Arena) (size : ℕ)
    → mm.arena ≡ a ∷ rest
    → IsArena a
    → 0 < size
    → taken size < 2 ^ 31
    → a.size * 2 < 2 ^ 31
    → mm.bytes_allocated + a.size * 2 < 2 ^ 31
    → (r : Option ℕ) × (mm' : MemoryManager) × (alloc_from_mm mm size ≡ some (r, mm'))
      × (InPlace mm a rest size r mm' ⊎ (Grown mm a rest size r mm' ⊎ Refused mm a rest size r mm'))
alloc_from_mm-exact mm a rest size e (f, g, h, k) pos small n m =
    elim (Bool-cases (ltb a.size (a.free + taken size))) [
      | inr x ↦
          let room : a.free + taken size ≤ a.size = ground arith in
          (
            some a.free,
            _,
            alloc_from_mm-of mm mm a a _ rest rest size (some a.free) e pos small
                (ensure_room-fits mm a rest (taken size) e room) e
                (alloc_from_arena-room a size pos small room),
            inl (room, _, refl, refl, IsBlock-of_room a size (f, g, h, k) room),
          )
      | inl x ↦
          let full : a.size < a.free + taken size = ground arith in
          let b = fresh (a.size * 2) in
          let grows = ensure_room-grown mm a rest (taken size) e (f, g, h, k) full n m in
          elim (Bool-cases (ltb (a.size * 2) (taken size))) [
            | inr y ↦
                let room : taken size ≤ a.size * 2 = ground arith in
                (
                  some 0,
                  _,
                  alloc_from_mm-of mm (grown mm a rest b) a b _ rest (a ∷ rest) size (some 0) e pos
                      small grows refl (alloc_from_arena-room b size pos small (omega arith)),
                  inr (
                      inl (
                        full,
                        room,
                        _,
                        refl,
                        refl,
                        IsBlock-of_room b size (omega arith, refl, omega arith, omega arith)
                            (omega arith),
                      )),
                )
            | inl y ↦
                let over : a.size * 2 < taken size = ground arith in
                (
                  none,
                  _,
                  alloc_from_mm-of mm (grown mm a rest b) a b _ rest (a ∷ rest) size none e pos
                      small grows refl (alloc_from_arena-full b size pos small (omega arith)),
                  inr (inr (over, refl, refl)),
                )
          ]
    ]
