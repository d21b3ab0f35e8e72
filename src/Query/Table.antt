-- ===== src/Query/Table.antt =====
-- query_table.c: the tables of rules. What is added is found, what is deleted is not, and a text
-- hits exactly the rules that are true of it.
use mathlib.Core.Path.{subst}
use mathlib.Core.Option.{some-injective}
use mathlib.Core.List.{append_assoc, append-nil, map-append}
use mathlib.Core.List.{Memᴰ}
use mathlib.Core.Logic.{⊎_elim, ◌↔◌}
use mathlib.Core.List.Memᴰ
use school_project.Common.{
  ℕ, zero, suc, ◌+◌, ◌≤◌, ◌<◌, ◌≡◌, ◌≢◌, ◌∙◌, ap, refl, Bool, true, false, Option, none, some, List,
  [], ◌∷◌, ◌++◌, arith, lt→ltb, if◌then◌else◌, Bytes, length, length-append, get_elem?, bytes_eq,
  eq_of_bytes_eq, bytes_eq_refl, inl, inr, Bool-cases,
}
use school_project.Query.Parse.{Term, AllTerms, IsWord, render, words, ops, parse-render}
use school_project.Query.{
  QueryExpression, QueryTable, match_, add_query_rule, add_words, erase_rule, del_query_rule,
  push_hit, match_loop, logic_query_match, max_logic_hit_result_len, table_size,
}

-- The places, from `i` on, whose rule is live and true of the text.
abbrev pub is_hit : Option Bool → Bool
is_hit none = false
is_hit (some b) = b

abbrev pub hits_from : (Bytes → List Bytes) → ℕ → QueryTable → Bytes → List ℕ
hits_from keywords i [] text = []
hits_from keywords i (none ∷ table) text = hits_from keywords (i + 1) table text
hits_from keywords i (some e ∷ table) text =
    if is_hit (match_ keywords e text)
    then i ∷ hits_from keywords (i + 1) table text
    else hits_from keywords (i + 1) table text

-- Every live rule of the table has a value on the text.
abbrev pub Evaluates : (Bytes → List Bytes) → QueryTable → Bytes → Type 0
Evaluates keywords [] text = Unit
Evaluates keywords (none ∷ table) text = Evaluates keywords table text
Evaluates keywords (some e ∷ table) text =
    ((b : Bool) × (match_ keywords e text ≡ some b)) × Evaluates keywords table text

match_loop-hits :
    (keywords : Bytes → List Bytes) (i : ℕ) (table : QueryTable) (text : Bytes) (hits : List ℕ)
    → Evaluates keywords table text
    → length hits + length (hits_from keywords i table text) ≤ max_logic_hit_result_len
    → match_loop keywords i table text hits ≡ some (hits ++ hits_from keywords i table text)
unfolding match_loop push_hit
match_loop-hits keywords i [] text hits v h = rw append-nil
match_loop-hits keywords i (none ∷ table) text hits v h =
    match_loop-hits keywords (i + 1) table text hits v h
match_loop-hits keywords i (some e ∷ table) text hits ((true, b), v) h = ground (
  arith,
  match_loop-hits keywords (i + 1) table text (hits ++ i ∷ []) v,
  length-append hits (i ∷ []),
  append_assoc hits (i ∷ []) (hits_from keywords (i + 1) table text),
)
match_loop-hits keywords i (some e ∷ table) text hits ((false, b), v) h =
    ground (arith, match_loop-hits keywords (i + 1) table text hits v)

match_loop-overflow :
    (keywords : Bytes → List Bytes) (i : ℕ) (table : QueryTable) (text : Bytes) (hits : List ℕ)
    → Evaluates keywords table text
    → length hits ≤ max_logic_hit_result_len
    → max_logic_hit_result_len < length hits + length (hits_from keywords i table text)
    → match_loop keywords i table text hits ≡ none
unfolding match_loop push_hit
match_loop-overflow keywords i [] text hits v h k = absurd (omega arith)
match_loop-overflow keywords i (none ∷ table) text hits v h k =
    match_loop-overflow keywords (i + 1) table text hits v h k
match_loop-overflow keywords i (some e ∷ table) text hits ((true, b), v) h k = ground (
  arith,
  match_loop-overflow keywords (i + 1) table text (hits ++ i ∷ []) v,
  length-append hits (i ∷ []),
)
match_loop-overflow keywords i (some e ∷ table) text hits ((false, b), v) h k =
    ground (arith, match_loop-overflow keywords (i + 1) table text hits v)

-- The rule at place `j` is live and true of the text.
pub record Hits (keywords : Bytes → List Bytes) (table : QueryTable) (text : Bytes) (j : ℕ)
    : Type 0 where
  pub rule : QueryExpression
  pub is_there : get_elem? table j ≡ some (some rule)
  pub is_true : match_ keywords rule text ≡ some true

true-of_hit : (o : Option Bool) → is_hit o ≡ true → o ≡ some true
true-of_hit none h = cc
true-of_hit (some b) h = ap some h

Hits-suc :
    {keywords : Bytes → List Bytes} {x : Option QueryExpression} {table : QueryTable} {text : Bytes}
    {j : ℕ}
    → Hits keywords table text j ↔ Hits keywords (x ∷ table) text (suc j)
Hits-suc = (
  λ h. record { rule = h.rule; is_there = h.is_there; is_true = h.is_true },
  λ h. record { rule = h.rule; is_there = h.is_there; is_true = h.is_true },
)

mem-hits_from :
    (keywords : Bytes → List Bytes) (i : ℕ) (table : QueryTable) (text : Bytes) (j : ℕ)
    → Hits keywords table text j
    → Memᴰ (j + i) (hits_from keywords i table text)
mem-hits_from keywords i [] text j h = cc h.is_there
mem-hits_from keywords i (none ∷ table) text zero h = cc h.is_there
mem-hits_from keywords i (none ∷ table) text (suc j) h =
    Memᴰ.cast (omega arith)
      (mem-hits_from keywords (i + 1) table text j ((Hits-suc {x = none}).1 h))
mem-hits_from keywords i (some e ∷ table) text zero h =
    let t : match_ keywords e text ≡ some true = ground arith in rw t (Memᴰ.head (omega arith))
mem-hits_from keywords i (some e ∷ table) text (suc j) h =
    let rest =
      Memᴰ.cast {a = suc j + i} (omega arith)
        (mem-hits_from keywords (i + 1) table text j (Hits-suc.1 h)) in
    elim (Bool-cases (is_hit (match_ keywords e text))) [
      | inl t ↦ rw t (Memᴰ.tail rest)
      | inr f ↦ rw f rest
    ]

-- Both cases of a live rule in front.
Hits-cons :
    (keywords : Bytes → List Bytes) (i : ℕ) (x : Option QueryExpression) (table : QueryTable)
    (text : Bytes) {k : ℕ}
    → (j : ℕ) × (k ≡ j + (i + 1)) × Hits keywords table text j
    → (j : ℕ) × (k ≡ j + i) × Hits keywords (x ∷ table) text j
Hits-cons keywords i x table text (j, e, h) = (suc j, omega arith, Hits-suc.0 h)

hits_from-mem :
    (keywords : Bytes → List Bytes) (i : ℕ) (table : QueryTable) (text : Bytes) {k : ℕ}
    → Memᴰ k (hits_from keywords i table text)
    → (j : ℕ) × (k ≡ j + i) × Hits keywords table text j
hits_from-mem keywords i [] text m = elim m [ ]
hits_from-mem keywords i (none ∷ table) text m =
    Hits-cons keywords i none table text (hits_from-mem keywords (i + 1) table text m)
hits_from-mem keywords i (some e ∷ table) text {k} m =
    elim (Bool-cases (is_hit (match_ keywords e text))) [
      | inr f ↦
          Hits-cons keywords i (some e) table text
            (hits_from-mem keywords (i + 1) table text (rw f at m))
      | inl t ↦
          let m' : Memᴰ k (i ∷ hits_from keywords (i + 1) table text) = rw t at m in
          ⊎_elim
            (λ first.
              (0, omega arith, record { rule = e; is_there = refl; is_true = true-of_hit _ t }))
            (λ later.
              Hits-cons keywords i (some e) table text
                (hits_from-mem keywords (i + 1) table text later))
            (Memᴰ.cases_cons m')
    ]

-- If every live rule has a value on the text, the query lists exactly the places of the rules that
-- are true of it, where those are at most 32; with more, it writes past `hit_rule_list`.
pub logic_query_match_exact :
    (keywords : Bytes → List Bytes) (table : QueryTable) (text : Bytes)
    → Evaluates keywords table text
    → (hits : List ℕ) × ((j : ℕ) → Memᴰ j hits ↔ Hits keywords table text j)
      × (length hits ≤ max_logic_hit_result_len → logic_query_match keywords table text ≡ some hits)
      × (max_logic_hit_result_len < length hits → logic_query_match keywords table text ≡ none)
unfolding logic_query_match
logic_query_match_exact keywords table text v = (
  hits_from keywords 0 table text,
  λ j. (
    λ m.
        let (k, e, h) = hits_from-mem keywords 0 table text m in
        subst (Hits keywords table text) (omega arith) h,
    λ h. Memᴰ.cast (omega arith) (mem-hits_from keywords 0 table text j h),
  ),
  λ few. match_loop-hits keywords 0 table text [] v (omega arith),
  λ many. match_loop-overflow keywords 0 table text [] v (omega arith) (omega arith),
)

length-del :
    (table : QueryTable) (query : Bytes) → length (del_query_rule table query) ≡ length table
unfolding del_query_rule
length-del [] query = refl
length-del (x ∷ table) query = ap suc (length-del table query)

erase_rule-live :
    (query : Bytes) (x : Option QueryExpression) (e : QueryExpression)
    → (erase_rule query x ≡ some e) ↔ ((x ≡ some e) × (e.full_text ≢ query))
unfolding erase_rule
erase_rule-live query none e = (λ h. cc, λ h. cc h.0)
erase_rule-live query (some d) e = elim (Bool-cases (bytes_eq d.full_text query)) [
  | inl same ↦
      let gone : d.full_text ≡ query = eq_of_bytes_eq d.full_text query same in
      (λ h. absurd (ground arith), λ h. absurd (h.1 (ground arith)))
  | inr other ↦
      (λ h. (ground arith, λ full. absurd (ground (arith, bytes_eq_refl query))), λ h. rw other h.0)
]

del_query_rule-live :
    (table : QueryTable) (query : Bytes) (j : ℕ) (e : QueryExpression)
    → (get_elem? (del_query_rule table query) j ≡ some (some e))
      ↔ ((get_elem? table j ≡ some (some e)) × (e.full_text ≢ query))
unfolding del_query_rule
del_query_rule-live [] query j e = (λ h. absurd (cc h), λ h. absurd (cc h.0))
del_query_rule-live (x ∷ table) query zero e =
    let place = erase_rule-live query x e in
    (
      λ h. let (there, kept) = place.0 (some-injective _ _ h) in (ap some there, kept),
      λ h. ap some (place.1 (some-injective _ _ h.0, h.1)),
    )
del_query_rule-live (x ∷ table) query (suc j) e = del_query_rule-live table query j e

-- Deleting a query empties exactly the places whose rule has that text. The others, and the length
-- of the table, stay.
pub del_query_rule_exact :
    (table : QueryTable) (query : Bytes)
    → (length (del_query_rule table query) ≡ length table)
      × ((j : ℕ) (e : QueryExpression)
          → (get_elem? (del_query_rule table query) j ≡ some (some e))
            ↔ ((get_elem? table j ≡ some (some e)) × (e.full_text ≢ query)))
del_query_rule_exact table query =
    (length-del table query, λ j e. del_query_rule-live table query j e)

add_words-total :
    {S : Type 0} (addstr : S → Bytes → Option S) (s : S) (ws : List Bytes)
    → ((s : S) (w : Bytes) → (s' : S) × (addstr s w ≡ some s'))
    → (s' : S) × (add_words addstr s ws ≡ some s')
unfolding add_words
add_words-total addstr s [] adds = (s, refl)
add_words-total addstr s (w ∷ ws) adds =
    let (s₁, e) = adds s w in let (s₂, f) = add_words-total addstr s₁ ws adds in (s₂, rw e f)

-- A well-formed query is added behind the rules of a table that has room, over an automaton that
-- takes every word. Deleting the same text empties its place again.
pub add_query_rule-del :
    {S : Type 0} (addstr : S → Bytes → Option S) (s : S) (table : QueryTable) (w : Bytes)
    (ts : List Term)
    → ((s : S) (v : Bytes) → (s' : S) × (addstr s v ≡ some s'))
    → length table < table_size
    → length ts ≤ 3
    → length (render w ts) < 256
    → IsWord w
    → 0 < length w
    → AllTerms ts
    → (s' : S) × (e : QueryExpression) × (add_query_rule addstr (s, table) (render w ts)
        ≡ some (s', table ++ some e ∷ []))
      × (add_words addstr s (w ∷ words ts) ≡ some s')
      × (e.full_text ≡ render w ts)
      × (del_query_rule (table ++ some e ∷ []) (render w ts)
          ≡ del_query_rule table (render w ts) ++ none ∷ [])
unfolding add_query_rule del_query_rule erase_rule
add_query_rule-del addstr s table w ts adds room few fits h n v =
    let (s', added) = add_words-total addstr s (w ∷ words ts) adds in
    let e : QueryExpression = record {
      logic_ops = ops ts;
      query = w ∷ words ts;
      tf = [];
      full_text = render w ts;
    } in
    (
      s',
      e,
      rw (parse-render w ts few fits h n v) (rw added (rw (lt→ltb (length table) table_size room))),
      added,
      refl,
      map-append (erase_rule (render w ts)) table (some e ∷ []) ∙ rw (bytes_eq_refl (render w ts)),
    )
