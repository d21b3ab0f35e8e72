-- ===== src/StreamLoop/Rounds.antt =====
-- loop.c, `loop`: the threads share the table out, and each comes to all of its slots again and again.
use school_project.Common.{
  ℕ, zero, suc, ◌+◌, ◌-◌, ◌*◌, ◌≤◌, ◌<◌, ◌≡◌, ap, ◌∙◌, ltb, arith, Bool-cases, inl, inr,
}
use school_project.StreamLoop.{thread_range, next_index, thread_num, data_cache_table_size}

-- The slot belongs to the thread.
abbrev pub Owns : ℕ → ℕ → Type 0
Owns index slot = ((thread_range index).0 ≤ slot) × (slot < (thread_range index).1)

-- What the ranges are.
owned :
    (index slot : ℕ)
    → index < thread_num
    → Owns index slot
    → (index * 33334 ≤ slot) × (slot < data_cache_table_size) × (slot < (index + 1) * 33334 + index)
unfolding thread_range
owned index slot h o = ground arith

owner :
    (slot : ℕ) → slot < data_cache_table_size → (index : ℕ) × (index < thread_num) × Owns index slot
unfolding thread_range
owner slot h = elim (Bool-cases (ltb slot 33334)) [
  | inl x ↦ (0, omega arith, (omega arith, ground arith))
  | inr x ↦ elim (Bool-cases (ltb slot 66668)) [
    | inl y ↦ (1, omega arith, (ground arith, ground arith))
    | inr y ↦ (2, omega arith, (ground arith, ground arith))
  ]
]

only_owner : (slot i j : ℕ) → i < thread_num → j < thread_num → Owns i slot → Owns j slot → j ≡ i
unfolding thread_range
only_owner slot i j h k o p = ground arith

-- Every slot of the table belongs to exactly one of the three threads, and no thread leaves the table.
pub thread_unique :
    (slot : ℕ)
    → (slot < data_cache_table_size
        → (index : ℕ) × (index < thread_num)
          × Owns index slot
          × ((other : ℕ) → other < thread_num → Owns other slot → other ≡ index))
      × ((index : ℕ) → index < thread_num → Owns index slot → slot < data_cache_table_size)
thread_unique slot = (
  λ h. let (i, k, o) = owner slot h in (i, k, o, λ j m p. only_owner slot i j k m o p),
  λ i k o. (owned i slot k o).1,
)

-- The index after so many rounds.
unfoldable pub rounds : ℕ → ℕ → ℕ → ℕ → ℕ
unfolding next_index
rounds start last zero i = i
rounds start last (suc n) i = rounds start last n (next_index start last i)

forward : (start last k i : ℕ) → i + k < last → rounds start last k i ≡ i + k
unfolding rounds next_index
forward start last zero i h = omega arith
forward start last (suc k) i h =
    let step : next_index start last i ≡ i + 1 = ground arith in
    rw step (forward start last k (i + 1) (omega arith) ∙ omega arith)

rounds_add :
    (start last m n i : ℕ)
    → rounds start last (m + n) i ≡ rounds start last n (rounds start last m i)
unfolding rounds
rounds_add start last zero n i =
    let step : 0 + n ≡ n = omega arith in ap (λ k. rounds start last k i) step
rounds_add start last (suc m) n i =
    let step : suc m + n ≡ suc (m + n) = omega arith in
    ap (λ k. rounds start last k i) step ∙ rounds_add start last m n (next_index start last i)

back : (start last : ℕ) → start < last → rounds start last 1 (last - 1) ≡ start
unfolding rounds next_index
back start last h = ground arith

-- In any range from `startidx` to below `lastidx` the endless loop comes from each index to each
-- index after some rounds, at most as many as the range is long.
pub loop-visits :
    (start last i j : ℕ)
    → start ≤ i
    → i < last
    → start ≤ j
    → j < last
    → (n : ℕ) × (n ≤ last - start) × (rounds start last n i ≡ j)
loop-visits start last i j hi hi' hj hj' = elim (Bool-cases (ltb j i)) [
  | inr x ↦ (j - i, omega arith, forward start last (j - i) i (ground arith) ∙ ground arith)
  | inl x ↦
      let up : rounds start last (last - 1 - i) i ≡ last - 1 =
        forward start last (last - 1 - i) i (omega arith) ∙ omega arith in
      let again : rounds start last (1 + (j - start)) (last - 1) ≡ j =
        rounds_add start last 1 (j - start) (last - 1)
        ∙ rw (back start last (omega arith))
            (forward start last (j - start) start (omega arith) ∙ omega arith) in
      (
        last - 1 - i + (1 + (j - start)),
        ground arith,
        rounds_add start last (last - 1 - i) (1 + (j - start)) i ∙ rw up again,
      )
]
