-- ===== src/Trie/Rules.antt =====
-- trie.c: the global tree, over any history of changes, is a map from the rules to their kinds.
use mathlib.Core.Path.{subst, fun_ext}
use school_project.Common.{
  ℕ, ◌+◌, ◌-◌, ◌%◌, ◌<◌, ◌^◌, ◌≡◌, ◌≢◌, refl, sym, ap, ◌∙◌, inl, inr, true, Option, none, some,
  List, [], ◌∷◌, arith, ◌==◌, if◌then◌else◌, ◌>>=◌, Option-cases, Bytes, bytes_eq, eq_of_bytes_eq,
  length, Bool-cases,
}
use school_project.Trie.{
  null, TrieState, init_trie_tree, insert_for_userid, insert_for_resourceid, del, Hit, match,
}
use school_project.Trie.Stored.{stored, accepts, Indexed}
use school_project.Trie.Match.{match_decides}
use school_project.Trie.Refs.{Covers, Covers-mono, stored-of_weight, total}
use school_project.Trie.Insert.{insert_path-total, insert_path-Grown, stored-insert_path}
use school_project.Trie.Delete.{release_path-Released, walk-total}

-- `add_user` is `insert_for_userid`, `add_resource` is `insert_for_resourceid`, `remove` is `del`.
pub data Change : Type 0 where
  add_user add_resource remove : Bytes → Change

abbrev pub text : Change → Bytes
text (add_user p) = p
text (add_resource p) = p
text (remove p) = p

unfoldable pub apply : TrieState → Change → Option TrieState
unfolding insert_for_userid insert_for_resourceid del
apply s (add_user p) = insert_for_userid s p
apply s (add_resource p) = insert_for_resourceid s p
apply s (remove p) = del s p

unfoldable pub run : TrieState → List Change → Option TrieState
unfolding apply
run s [] = some s
run s (c ∷ cs) = do s' ← apply s c; run s' cs

pub data Kind : Type 0 where
  user resource : Kind

-- `pattern1 % 2 == 0`, by which the log tells the two kinds apart.
abbrev pub kind_of_id : ℕ → Kind
kind_of_id id = if id % 2 == 0 then user else resource

abbrev pub kind_of : Option ℕ → Option Kind
kind_of none = none
kind_of (some id) = some (kind_of_id id)

abbrev pub kind : TrieState → Bytes → Option Kind
kind s q = kind_of (stored s.trie_tree_root q)

-- The abstract view: a map from texts to kinds.
abbrev pub Rules : Type 0
Rules = Bytes → Option Kind

abbrev pub change : Rules → Change → Rules
change m (add_user p) q = if bytes_eq p q then some user else m q
change m (add_resource p) q = if bytes_eq p q then some resource else m q
change m (remove p) q = if bytes_eq p q then none else m q

abbrev pub history : Rules → List Change → Rules
history m [] = m
history m (c ∷ cs) = history (change m c) cs

-- No reference count is above `n`, each covers the rules below it, and the next ids keep the
-- parity of their kind.
pub record IsSound (n : ℕ) (s : TrieState) : Type 0 where
  pub root : s.trie_tree_root ≢ null
  pub covers : Covers n s.trie_tree_root
  pub even : s.global_pattern_id_for_userid % 2 ≡ 0
  pub odd : s.global_pattern_id_for_resourceid % 2 ≡ 1

pub init_trie_tree-IsSound : IsSound 0 init_trie_tree
unfolding init_trie_tree
init_trie_tree-IsSound = record {
  root = λ e. cc;
  covers = λ i. (omega arith, omega arith, tt);
  even = refl;
  odd = refl;
}

-- A change that leaves a sound state, with the rules changed as the map is.
abbrev pub Changes : ℕ → TrieState → Change → Type 0
Changes n s c =
    (s' : TrieState) × (apply s c ≡ some s')
    × IsSound (n + 1) s'
    × ((q : Bytes) → kind s' q ≡ change (kind s) c q)

absent_removed :
    (s : TrieState) (p : Bytes)
    → stored s.trie_tree_root p ≡ none
    → (q : Bytes) → kind s q ≡ change (kind s) (remove p) q
absent_removed s p absent q = elim (Bool-cases (bytes_eq p q)) [
  | inr e ↦ rw e
  | inl e ↦
      rw e
        (ap kind_of (subst (λ r. stored s.trie_tree_root r ≡ none) (eq_of_bytes_eq p q e) absent))
]

module _ (n : ℕ) (s : TrieState) (small : n < 2 ^ 15 - 1) (sound : IsSound n s) where
  add_user-Changes : (p : Bytes) → Indexed p → Changes n s (add_user p)
  unfolding apply insert_for_userid
  add_user-Changes p v =
      let id = s.global_pattern_id_for_userid in
      let (t, e, alive) = insert_path-total s.trie_tree_root p id sound.root v in
      let g = insert_path-Grown n s.trie_tree_root p id (omega arith) sound.covers e in
      (
        record {
          global_pattern_id_for_userid = id + 2;
          global_pattern_id_for_resourceid = s.global_pattern_id_for_resourceid;
          trie_tree_root = t;
        },
        rw e,
        record {
          root = alive;
          covers = g.covers;
          even = omega (arith, sound.even);
          odd = sound.odd;
        },
        λ q. ground (
          arith,
          sound.even,
          stored-insert_path n s.trie_tree_root p id (omega arith) sound.covers e q,
        ),
      )

  add_resource-Changes : (p : Bytes) → Indexed p → Changes n s (add_resource p)
  unfolding apply insert_for_resourceid
  add_resource-Changes p v =
      let id = s.global_pattern_id_for_resourceid in
      let (t, e, alive) = insert_path-total s.trie_tree_root p id sound.root v in
      let g = insert_path-Grown n s.trie_tree_root p id (omega arith) sound.covers e in
      (
        record {
          global_pattern_id_for_userid = s.global_pattern_id_for_userid;
          global_pattern_id_for_resourceid = id + 2;
          trie_tree_root = t;
        },
        rw e,
        record {
          root = alive;
          covers = g.covers;
          even = sound.even;
          odd = omega (arith, sound.odd);
        },
        λ q. ground (
          arith,
          sound.odd,
          stored-insert_path n s.trie_tree_root p id (omega arith) sound.covers e q,
        ),
      )

  remove-Changes : (p : Bytes) → Indexed p → Changes n s (remove p)
  unfolding apply del
  remove-Changes p v =
      let (end, e, yes', no') = walk-total n s.trie_tree_root p sound.covers sound.root v in
      elim (Option-cases (stored s.trie_tree_root p)) [
        | inl absent ↦ (
          s,
          rw e (rw (no' absent)),
          record {
            root = sound.root;
            covers = Covers-mono n (n + 1) s.trie_tree_root (omega arith) sound.covers;
            even = sound.even;
            odd = sound.odd;
          },
          λ q. absent_removed s p absent q,
        )
        | inr (id, held) ↦
            let (t, r) =
              release_path-Released n s.trie_tree_root p (omega arith) sound.covers held in
            (
              record s { trie_tree_root = t },
              rw e (rw (yes' id held) (rw r.ends)),
              record {
                root = r.alive;
                covers = Covers-mono n (n + 1) t (omega arith) r.covers;
                even = sound.even;
                odd = sound.odd;
              },
              λ q. ground (arith, r.rules q),
            )
      ]

  pub apply-Changes : (c : Change) → Indexed (text c) → Changes n s c
  apply-Changes (add_user p) v = add_user-Changes p v
  apply-Changes (add_resource p) v = add_resource-Changes p v
  apply-Changes (remove p) v = remove-Changes p v

abbrev pub AllIndexed : List Change → Type 0
AllIndexed [] = Unit
AllIndexed (c ∷ cs) = Indexed (text c) × AllIndexed cs

history-ext :
    (m m' : Rules) (cs : List Change)
    → ((q : Bytes) → m q ≡ m' q)
    → (q : Bytes) → history m cs q ≡ history m' cs q
history-ext m m' cs h q = ap (λ k. history k cs q) (fun_ext h)

-- From a sound state every history of changes to texts of the alphabet ends, in a sound state. Its
-- rules, with their kinds, are those of the same history on a map, while fewer than 2 ^ 15 changes
-- are made in all.
pub run-refines :
    (n : ℕ) (s : TrieState) (cs : List Change)
    → n + length cs < 2 ^ 15
    → IsSound n s
    → AllIndexed cs
    → (s' : TrieState) × (run s cs ≡ some s')
      × IsSound (n + length cs) s'
      × ((q : Bytes) → kind s' q ≡ history (kind s) cs q)
unfolding run
run-refines n s [] h sound v = (s, refl, subst (λ k. IsSound k s) (omega arith) sound, λ q. refl)
run-refines n s (c ∷ cs) h sound v =
    let (s₁, e₁, sound₁, k₁) = apply-Changes n s (omega arith) sound c v.0 in
    let (s₂, e₂, sound₂, k₂) = run-refines (n + 1) s₁ cs (omega arith) sound₁ v.1 in
    (
      s₂,
      rw e₁ e₂,
      subst (λ k. IsSound k s₂) (omega arith) sound₂,
      λ q. k₂ q ∙ history-ext (kind s₁) (change (kind s) c) cs k₁ q,
    )

init_empty : (q : Bytes) → kind init_trie_tree q ≡ none
unfolding init_trie_tree total
init_empty q = ap kind_of (stored-of_weight _ q refl)

-- What a user sees of `match` after a history: the report, and the kind of the reported id.
pub record Answer (m : Rules) (tupe : Bytes) (h : Hit) : Type 0 where
  pub sound :
      h.find ≡ true
      → (rule : Bytes) × (accepts rule tupe ≡ true)
        × (kind_of h.pattern_id ≡ m rule)
        × (m rule ≢ none)
  pub complete : (rule : Bytes) → accepts rule tupe ≡ true → m rule ≢ none → h.find ≡ true

-- Let the texts of the history and the text that is asked for consist of digits, '*' and blanks, the
-- characters that `c2i` has an index for. After `init_trie_tree` and such a history of fewer than
-- 2 ^ 15 changes, `match` returns, it reports the text exactly if a rule of the history's map accepts
-- it, and the id it writes has the kind of such a rule.
pub match-run :
    (cs : List Change) (tupe : Bytes)
    → length cs < 2 ^ 15
    → AllIndexed cs
    → Indexed tupe
    → (s : TrieState) × (run init_trie_tree cs ≡ some s)
      × (h : Hit) × (match s tupe none ≡ some h)
      × Answer (history (λ q. none) cs) tupe h
match-run cs tupe small v w =
    let (s, e, sound, kinds) =
      run-refines 0 init_trie_tree cs (omega arith) init_trie_tree-IsSound v in
    let same =
      λ (q : Bytes). kinds q ∙ history-ext (kind init_trie_tree) (λ q. none) cs init_empty q in
    let (h, found, exact, right, _) = match_decides s tupe none sound.root w in
    (
      s,
      e,
      h,
      found,
      record {
        sound = λ f.
            let (id, a, wrote) = right f in
            (
              a.rule,
              a.is_accepted,
              ap kind_of (wrote ∙ sym a.is_stored) ∙ same a.rule,
              λ e.
                  let bad : some (kind_of_id id) ≡ none =
                    sym (ap kind_of a.is_stored) ∙ same a.rule ∙ e in
                  cc,
            );
        complete = λ rule acc some_kind. elim (Option-cases (stored s.trie_tree_root rule)) [
          | inl e ↦ absurd (some_kind (sym (same rule) ∙ ap kind_of e))
          | inr (id, e) ↦ exact.1 (id, record { rule = rule; is_stored = e; is_accepted = acc })
        ];
      },
    )
