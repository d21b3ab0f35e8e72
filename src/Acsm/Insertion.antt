-- ===== src/Acsm/Insertion.antt =====
-- acsmx.c: the tree of states that the patterns make, whole.
use mathlib.Core.Path.{subst, fun_ext}
use mathlib.Core.List.{append_assoc, append-nil, foldl}
use school_project.Common.{
  ℕ, ◌+◌, ◌≤◌, ◌<◌, ◌≡◌, ◌≢◌, refl, sym, ◌∙◌, false, List, [], ◌∷◌, ◌++◌, arith, ◌==◌,
  if◌then◌else◌, Bytes, Bool-cases, Option-cases, inl, inr, bytes_eq, eq_of_bytes_eq,
}
use school_project.Acsm.{
  StateTable, Building, follow_pattern, new_states, add_match_list_entry, add_pattern_states,
  empty_table, pattern_states, total_length,
}
use school_project.Acsm.States.{
  walk, walk-Grows, add_entry-Grows, IsStuck, follow_pattern-IsStuck, fresh, ==→eq,
  pattern_states-Accepts,
}
use school_project.Acsm.Patterns.{times}
use school_project.Acsm.Rows.{list-add_entry, next-add_entry}
use school_project.Acsm.Tree.{IsTree, label-injective}
use school_project.Acsm.Labels.{IsBuilt, IsBuilt-IsMade, AllBytes, grown, grown-IsBuilt, longer-new}

new_states-IsBuilt :
    (b : Building) (s : ℕ) (p : Bytes) {label : ℕ → Bytes} {added : Bytes → ℕ}
    → IsBuilt b label added
    → s ≤ b.num
    → IsStuck b.table s p
    → AllBytes p
    → (label' : ℕ → Bytes) × IsBuilt (new_states b s p).0 label' added
      × (label' (new_states b s p).1 ≡ label s ++ p)
      × ((new_states b s p).1 ≤ (new_states b s p).0.num)
unfolding new_states
new_states-IsBuilt b s [] {label} v h stuck bytes = (label, v, sym (append-nil (label s)), h)
new_states-IsBuilt b s (c ∷ p) {label} v h stuck (byte, bytes) =
    let (label', v', e, k) =
      new_states-IsBuilt (grown b s c) (b.num + 1) p (grown-IsBuilt v s c h stuck byte)
        (omega arith) (fresh b s c p (IsBuilt-IsMade v) h) bytes in
    (label', v', e ∙ rw (longer-new v s c h stuck byte) (append_assoc (label s) (c ∷ []) p), k)

follow_pattern-label :
    (t : StateTable) (s : ℕ) (p : Bytes) {label : ℕ → Bytes} {num : ℕ}
    → IsTree t label num
    → label (follow_pattern t s p).0 ++ (follow_pattern t s p).1 ≡ label s ++ p
unfolding follow_pattern
follow_pattern-label t s [] tree = refl
follow_pattern-label t s (c ∷ p) {label} tree = elim (Option-cases ((t s).next_state c)) [
  | inl x ↦ rw (x, follow_pattern)
  | inr (m, x) ↦
      rw (x, follow_pattern)
        (follow_pattern-label t m p tree
          ∙ rw (tree.child s c m x).0 (append_assoc (label s) (c ∷ []) p))
]

follow_pattern-AllBytes :
    (t : StateTable) (s : ℕ) (p : Bytes) → AllBytes p → AllBytes (follow_pattern t s p).1
unfolding follow_pattern
follow_pattern-AllBytes t s [] h = h
follow_pattern-AllBytes t s (c ∷ p) (byte, h) = elim (Option-cases ((t s).next_state c)) [
  | inl x ↦ rw (x, follow_pattern) (byte, h)
  | inr (m, x) ↦ rw (x, follow_pattern) (follow_pattern-AllBytes t m p h)
]

-- One more pattern.
abbrev pub one_more : Bytes → (Bytes → ℕ) → Bytes → ℕ
one_more p added q = (if bytes_eq q p then 1 else 0) + added q

add_entry-listed :
    (b : Building) (s : ℕ) (p : Bytes) {label : ℕ → Bytes} {added : Bytes → ℕ}
    → IsBuilt b label added
    → s ≤ b.num
    → label s ≡ p
    → (j : ℕ) (q : Bytes) → j ≤ b.num
    → times q (add_match_list_entry b.table s p j).match_list
      ≡ (if bytes_eq q (label j) then one_more p added q else 0)
unfolding times
add_entry-listed b s p {label} {added} v h e j q k = elim (Bool-cases (j == s)) [
  | inl x ↦
      rw (list-add_entry b.table s p j, x, ==→eq j s x, e)
        (ground (
          arith,
          subst (λ u. times q (b.table s).match_list ≡ (if bytes_eq q u then added q else 0)) e
              (v.listed s q h),
        ))
  | inr x ↦
      rw (list-add_entry b.table s p j, x)
        (v.listed j q k ∙ elim (Bool-cases (bytes_eq q (label j))) [
          | inr y ↦ rw y refl
          | inl y ↦ elim (Bool-cases (bytes_eq q p)) [
            | inr z ↦ rw (y, z) (omega arith)
            | inl z ↦
                let same : j ≡ s =
                  label-injective v.tree j s k h
                    (sym (eq_of_bytes_eq q (label j) y) ∙ eq_of_bytes_eq q p z ∙ sym e) in
                absurd (ground arith)
          ]
        ])
]

add_entry-held :
    (b : Building) (s : ℕ) (p : Bytes) {label : ℕ → Bytes} {added : Bytes → ℕ}
    → IsBuilt b label added
    → s ≤ b.num
    → label s ≡ p
    → (q : Bytes) → one_more p added q ≢ 0
    → (j : ℕ) × (j ≤ b.num) × (label j ≡ q)
add_entry-held b s p v h e q n = elim (Bool-cases (bytes_eq q p)) [
  | inl y ↦ (s, h, e ∙ sym (eq_of_bytes_eq q p y))
  | inr y ↦ v.held q (λ z. n (rw (y, z) (omega arith)))
]

add_entry-IsBuilt :
    (b : Building) (s : ℕ) (p : Bytes) {label : ℕ → Bytes} {added : Bytes → ℕ}
    → IsBuilt b label added
    → s ≤ b.num
    → label s ≡ p
    → IsBuilt (record b { table = add_match_list_entry b.table s p }) label (one_more p added)
add_entry-IsBuilt b s p {label} {added} v h e = record {
  tree = record {
    root = v.tree.root;
    child = λ a c n x. v.tree.child a c n (sym (next-add_entry b.table s p a c) ∙ x);
    reached = λ j k. walk-Grows (add_entry-Grows b.table s p) 0 (label j) (v.tree.reached j k);
  };
  listed = add_entry-listed b s p v h e;
  empty = λ j k.
      let away : (j == s) ≡ false = ground arith in
      rw (list-add_entry b.table s p j, away) (v.empty j k);
  held = add_entry-held b s p v h e;
}

add_pattern_states-IsBuilt :
    (b : Building) (p : Bytes) {label : ℕ → Bytes} {added : Bytes → ℕ}
    → IsBuilt b label added
    → AllBytes p
    → (label' : ℕ → Bytes) × IsBuilt (add_pattern_states b p) label' (one_more p added)
unfolding add_pattern_states
add_pattern_states-IsBuilt b p {label} v bytes =
    let f = follow_pattern b.table 0 p in
    let (stuck, at, _) = follow_pattern-IsStuck b 0 p (IsBuilt-IsMade v) (omega arith) in
    let (label', v', e, k) =
      new_states-IsBuilt b f.0 f.1 v at stuck (follow_pattern-AllBytes b.table 0 p bytes) in
    let named : label' (new_states b f.0 f.1).1 ≡ p =
      e ∙ follow_pattern-label b.table 0 p v.tree ∙ rw v.tree.root refl in
    (label', add_entry-IsBuilt (new_states b f.0 f.1).0 (new_states b f.0 f.1).1 p v' k named)

abbrev pub AllPatterns : List Bytes → Type 0
AllPatterns [] = Unit
AllPatterns (p ∷ ps) = AllBytes p × AllPatterns ps

IsBuilt-same :
    {b : Building} {label : ℕ → Bytes} {added added' : Bytes → ℕ}
    → ((q : Bytes) → added q ≡ added' q)
    → IsBuilt b label added
    → IsBuilt b label added'
IsBuilt-same {b} {label} same v = subst (IsBuilt b label) (fun_ext same) v

foldl-IsBuilt :
    (ps : List Bytes) (b : Building) {label : ℕ → Bytes} {added : Bytes → ℕ}
    → IsBuilt b label added
    → AllPatterns ps
    → (label' : ℕ → Bytes) × IsBuilt
        (foldl add_pattern_states b ps)
        label'
        (λ q. times q ps + added q)
unfolding times
foldl-IsBuilt [] b {label} v h = (label, IsBuilt-same (λ q. omega arith) v)
foldl-IsBuilt (p ∷ ps) b v (bytes, h) =
    let (label₁, v₁) = add_pattern_states-IsBuilt b p v bytes in
    let (label', v') = foldl-IsBuilt ps (add_pattern_states b p) v₁ h in
    (label', IsBuilt-same (λ q. omega arith) v')

empty-IsBuilt : IsBuilt (record { table = empty_table; num = 0 }) (λ s. []) (λ q. 0)
unfolding empty_table walk times
empty-IsBuilt = record {
  tree = record { root = refl; child = λ s c n e. absurd (cc e); reached = λ s h. ground arith };
  listed = λ s q h. ground arith;
  empty = λ s h. refl;
  held = λ q n. absurd (n refl);
}

-- The states that the patterns make are a tree, each lists the patterns that lead to it, as often
-- as they were added, and there are rows for all.
pub pattern_states-IsBuilt :
    (ps : List Bytes)
    → AllPatterns ps
    → (label : ℕ → Bytes) × IsBuilt (pattern_states ps) label (λ q. times q ps)
      × ((pattern_states ps).num < 1 + total_length ps)
unfolding pattern_states
pattern_states-IsBuilt ps h =
    let (label, v) = foldl-IsBuilt ps (record { table = empty_table; num = 0 }) empty-IsBuilt h in
    (
      label,
      IsBuilt-same (λ q. omega arith) v,
      unfold pattern_states in (pattern_states-Accepts ps).0,
    )
