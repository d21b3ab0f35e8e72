-- ===== src/Acsm/States.antt =====
-- acsmx.c, `AddPatternStates`: the states fit into the table that `acsmCompile` allocates, and
-- every pattern is accepted where its bytes lead.
use mathlib.Core.Path.{subst}
use mathlib.Core.List.{Memᴰ, foldl}
use mathlib.Core.List.Memᴰ
use mathlib.Core.Logic.{⊎_elim}
use school_project.Common.{
  ℕ, ◌+◌, ◌≤◌, ◌<◌, ◌≡◌, refl, sym, ◌∙◌, true, Option, none, some, List, [], ◌∷◌, arith, ◌>>=◌,
  ◌==◌, Bytes, length, ==_iff, Bool-cases, Option-cases, inl, inr,
}
use school_project.Acsm.{
  StateTable, Building, set_next, follow_pattern, new_states, add_match_list_entry,
  add_pattern_states, empty_table, pattern_states, total_length,
}

-- Where a pattern leads from a state.
unfoldable pub walk : StateTable → ℕ → Bytes → Option ℕ
walk t s [] = some s
walk t s (c ∷ p) = do n ← (t s).next_state c; walk t n p

-- Every transition joins states that have been made.
abbrev pub IsMade : Building → Type 0
IsMade b = (s c n : ℕ) → (b.table s).next_state c ≡ some n → (s ≤ b.num) × (n ≤ b.num)

pub ==→eq : (a b : ℕ) → (a == b) ≡ true → a ≡ b
==→eq a b h = ground arith

-- No transition and no accepted pattern is lost.
pub record Grows (t t' : StateTable) : Type 0 where
  pub keeps : (s c n : ℕ) → (t s).next_state c ≡ some n → (t' s).next_state c ≡ some n
  pub lists : (s : ℕ) (q : Bytes) → Memᴰ q (t s).match_list → Memᴰ q (t' s).match_list

pub Grows-refl : (t : StateTable) → Grows t t
Grows-refl t = record { keeps = λ s c n e. e; lists = λ s q m. m }

pub Grows-trans : {t t' t'' : StateTable} → Grows t t' → Grows t' t'' → Grows t t''
Grows-trans g h = record {
  keeps = λ s c n e. h.keeps s c n (g.keeps s c n e);
  lists = λ s q m. h.lists s q (g.lists s q m);
}

pub walk-Grows :
    {t t' : StateTable}
    → Grows t t'
    → (s : ℕ) (p : Bytes) {n : ℕ} → walk t s p ≡ some n
    → walk t' s p ≡ some n
unfolding walk
walk-Grows g s [] e = e
walk-Grows {t} g s (c ∷ p) e = elim (Option-cases ((t s).next_state c)) [
  | inl x ↦ absurd (ground arith)
  | inr (m, x) ↦ rw (g.keeps s c m x) (walk-Grows g m p (ground arith))
]

-- Where the first loop stops, the rest begins with a byte that has no transition.
follow_pattern-walk :
    (t : StateTable) (s : ℕ) (p : Bytes) {t' : StateTable} {n : ℕ}
    → Grows t t'
    → walk t' (follow_pattern t s p).0 (follow_pattern t s p).1 ≡ some n
    → walk t' s p ≡ some n
unfolding follow_pattern walk
follow_pattern-walk t s [] g e = e
follow_pattern-walk t s (c ∷ p) {t'} {n} g e = elim (Option-cases ((t s).next_state c)) [
  | inl x ↦ (rw (x, follow_pattern) at e)
  | inr (m, x) ↦
      rw (g.keeps s c m x)
        (follow_pattern-walk t m p {t' = t'} {n = n} g (rw (x, follow_pattern) at e))
]

abbrev pub IsStuck : StateTable → ℕ → Bytes → Type 0
IsStuck t s [] = Unit
IsStuck t s (c ∷ p) = (t s).next_state c ≡ none

pub follow_pattern-IsStuck :
    (b : Building) (s : ℕ) (p : Bytes)
    → IsMade b
    → s ≤ b.num
    → IsStuck b.table (follow_pattern b.table s p).0 (follow_pattern b.table s p).1
      × ((follow_pattern b.table s p).0 ≤ b.num)
      × (length (follow_pattern b.table s p).1 ≤ length p)
unfolding follow_pattern
follow_pattern-IsStuck b s [] made h = (tt, h, omega arith)
follow_pattern-IsStuck b s (c ∷ p) made h = elim (Option-cases ((b.table s).next_state c)) [
  | inl x ↦ rw (x, follow_pattern) (x, h, omega arith)
  | inr (m, x) ↦
      let (stuck, at, short) = follow_pattern-IsStuck b m p made (made s c m x).1 in
      rw (x, follow_pattern) (stuck, at, omega arith)
]

pub set_next-Grows :
    (t : StateTable) (s c : ℕ) (v : Option ℕ)
    → (t s).next_state c ≡ none
    → Grows t (set_next t s c v)
unfolding set_next
set_next-Grows t s c v free = record {
  keeps = λ s' c' n e. ground arith;
  lists = λ s' q m. elim (Bool-cases (s' == s)) [
    | inl e ↦ rw e (subst (λ k. Memᴰ q (t k).match_list) (==→eq s' s e) m)
    | inr e ↦ rw e m
  ];
}

pub next-of_made : (b : Building) (c : ℕ) → IsMade b → (b.table (b.num + 1)).next_state c ≡ none
next-of_made b c made = elim (Option-cases ((b.table (b.num + 1)).next_state c)) [
  | inl e ↦ e
  | inr (n, e) ↦ absurd (omega (arith, made (b.num + 1) c n e))
]

pub next-of_set :
    (t : StateTable) (s c : ℕ) (v : Option ℕ) → ((set_next t s c v) s).next_state c ≡ v
unfolding set_next
next-of_set t s c v = ground arith

pub set_next-IsMade :
    (b : Building) (s c : ℕ)
    → IsMade b
    → s ≤ b.num
    → IsMade (record { table = set_next b.table s c (some (b.num + 1)); num = b.num + 1 })
unfolding set_next
set_next-IsMade b s c made h s' c' n e = ground (arith, made s' c' n, made s c' n)

pub fresh :
    (b : Building) (s c : ℕ) (p : Bytes)
    → IsMade b
    → s ≤ b.num
    → IsStuck (set_next b.table s c (some (b.num + 1))) (b.num + 1) p
unfolding set_next
fresh b s c [] made h = tt
fresh b s c (d ∷ p) made h = ground (arith, next-of_made b d made)

-- What the second loop of `AddPatternStates` does.
record Extended (b : Building) (s : ℕ) (p : Bytes) (r : Building × ℕ) : Type 0 where
  made : IsMade r.0
  grows : Grows b.table r.0.table
  leads : walk r.0.table s p ≡ some r.1
  num : r.0.num ≡ b.num + length p
  last : r.1 ≤ r.0.num

new_states-Extended :
    (b : Building) (s : ℕ) (p : Bytes)
    → IsMade b
    → s ≤ b.num
    → IsStuck b.table s p
    → Extended b s p (new_states b s p)
unfolding new_states walk
new_states-Extended b s [] made h stuck = record {
  made = made;
  grows = Grows-refl b.table;
  leads = refl;
  num = omega arith;
  last = h;
}
new_states-Extended b s (c ∷ p) made h stuck =
    let b₁ : Building = record {
      table = set_next b.table s c (some (b.num + 1));
      num = b.num + 1;
    } in
    let g = set_next-Grows b.table s c (some (b.num + 1)) stuck in
    let r =
      new_states-Extended b₁ (b.num + 1) p (set_next-IsMade b s c made h) (omega arith)
        (fresh b s c p made h) in
    record {
      made = r.made;
      grows = Grows-trans g r.grows;
      leads =
          rw (r.grows.keeps s c (b.num + 1) (next-of_set b.table s c (some (b.num + 1)))) r.leads;
      num = omega (arith, r.num);
      last = r.last;
    }

pub add_entry-Grows : (t : StateTable) (s : ℕ) (p : Bytes) → Grows t (add_match_list_entry t s p)
unfolding add_match_list_entry
add_entry-Grows t s p = record {
  keeps = λ s' c n e. elim (Bool-cases (s' == s)) [
    | inl x ↦ rw x (subst (λ k. (t k).next_state c ≡ some n) (==→eq s' s x) e)
    | inr x ↦ rw x e
  ];
  lists = λ s' q m. elim (Bool-cases (s' == s)) [
    | inl x ↦ rw x (Memᴰ.tail (subst (λ k. Memᴰ q (t k).match_list) (==→eq s' s x) m))
    | inr x ↦ rw x m
  ];
}

pub add_entry-next :
    (t : StateTable) (s : ℕ) (p : Bytes) (k c : ℕ)
    → (add_match_list_entry t s p k).next_state c ≡ (t k).next_state c
unfolding add_match_list_entry
add_entry-next t s p k c = elim (Bool-cases (k == s)) [
  | inl x ↦ rw x (rw (==→eq k s x))
  | inr x ↦ rw x
]

add_entry-mem :
    (t : StateTable) (s : ℕ) (p : Bytes) → Memᴰ p (add_match_list_entry t s p s).match_list
unfolding add_match_list_entry
add_entry-mem t s p = rw ((==_iff s s).1 refl) (Memᴰ.head refl)

-- A pattern leads from state 0 to a state that lists it.
abbrev pub Accepts : StateTable → Bytes → Type 0
Accepts t p = (s : ℕ) × (walk t 0 p ≡ some s) × Memᴰ p (t s).match_list

Accepts-Grows : {t t' : StateTable} (p : Bytes) → Grows t t' → Accepts t p → Accepts t' p
Accepts-Grows p g (s, e, m) = (s, walk-Grows g 0 p e, g.lists s p m)

record Added (b : Building) (p : Bytes) (b' : Building) : Type 0 where
  made : IsMade b'
  grows : Grows b.table b'.table
  accepts : Accepts b'.table p
  num : b'.num ≤ b.num + length p

add_pattern_states-Added :
    (b : Building) (p : Bytes) → IsMade b → Added b p (add_pattern_states b p)
unfolding add_pattern_states
add_pattern_states-Added b p made =
    let f = follow_pattern b.table 0 p in
    let (stuck, at, short) = follow_pattern-IsStuck b 0 p made (omega arith) in
    let x = new_states-Extended b f.0 f.1 made at stuck in
    let r = new_states b f.0 f.1 in
    let g = add_entry-Grows r.0.table r.1 p in
    record {
      made = λ s c n e. x.made s c n (sym (add_entry-next r.0.table r.1 p s c) ∙ e);
      grows = Grows-trans x.grows g;
      accepts = (
        r.1,
        walk-Grows g 0 p (follow_pattern-walk b.table 0 p x.grows x.leads),
        add_entry-mem r.0.table r.1 p,
      );
      num = omega (arith, x.num, short);
    }

fold-states :
    (ps : List Bytes) (b : Building)
    → IsMade b
    → ((foldl add_pattern_states b ps).num ≤ b.num + total_length ps)
      × Grows b.table (foldl add_pattern_states b ps).table
      × ((p : Bytes) → Memᴰ p ps → Accepts (foldl add_pattern_states b ps).table p)
      × IsMade (foldl add_pattern_states b ps)
unfolding total_length
fold-states [] b made = (omega arith, Grows-refl b.table, λ p m. elim m [ ], made)
fold-states (q ∷ ps) b made =
    let a = add_pattern_states-Added b q made in
    let (num, grows, accepts, made') = fold-states ps (add_pattern_states b q) a.made in
    (
      omega (arith, a.num),
      Grows-trans a.grows grows,
      λ p m.
          ⊎_elim (λ e. subst (Accepts _) (sym e) (Accepts-Grows q grows a.accepts)) (accepts p)
            (Memᴰ.cases_cons m),
      made',
    )

-- The states that the patterns make are fewer than the rows that `acsmCompile` allocates, every
-- transition joins two of them, and every pattern leads from state 0 to a state that lists it.
pub pattern_states-Accepts :
    (ps : List Bytes)
    → ((pattern_states ps).num < 1 + total_length ps)
      × ((s c n : ℕ)
          → ((pattern_states ps).table s).next_state c ≡ some n
          → (s ≤ (pattern_states ps).num) × (n ≤ (pattern_states ps).num))
      × ((p : Bytes) → Memᴰ p ps → Accepts (pattern_states ps).table p)
unfolding pattern_states empty_table
pattern_states-Accepts ps =
    let (num, _, accepts, made) =
      fold-states ps (record { table = empty_table; num = 0 }) (λ s c n e. absurd (cc e)) in
    (omega (arith, num), made, accepts)
