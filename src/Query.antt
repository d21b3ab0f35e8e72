-- ===== src/Query.antt =====
-- query_table.c: keyword expressions such as "Li & Hong # Zhi", the tables of them, and their
-- evaluation. The automata of string_matcher.c are parameters here: `S` is their state, `addstr`
-- adds a word to it and `keywords` is what `get_keywords` writes (as often as `kw_match` counts).
pub mod Parse
pub mod Eval
pub mod Table
mod Examples
use school_project.Common.{
  ℕ, zero, suc, ◌+◌, ◌<◌, Bool, true, false, not, ◌&&◌, ◌||◌, Option, none, some, List, [], ◌∷◌,
  ◌++◌, map, ltb, leb, ◌==◌, if◌then◌else◌, ◌>>=◌, Bytes, bytes_eq, length, get_elem?, get_or,
}

abbrev pub max_query_word_num : ℕ
max_query_word_num = 4

-- `struct query_expression`: the first `query_word_num` places of its arrays.
pub record QueryExpression : Type 0 where
  pub logic_ops : Bytes
  pub query : List Bytes
  pub tf : List Bool
  pub full_text : Bytes

unfoldable pub new_query_expression : QueryExpression
new_query_expression = record { logic_ops = []; query = []; tf = []; full_text = [] }

unfoldable pub is_logic : ℕ → Bool
is_logic c = c == b'#' || c == b'&'

unfoldable pub still_has_logic : Bytes → Bool
unfolding is_logic
still_has_logic [] = false
still_has_logic (c ∷ s) = if is_logic c then true else still_has_logic s

-- while (query[start] == ' ') start++;
unfoldable pub skip_blanks : Bytes → Bytes
skip_blanks [] = []
skip_blanks (c ∷ s) = if c == b' ' then skip_blanks s else c ∷ s

-- The copying loops, which stop at a blank.
unfoldable pub up_to_blank : Bytes → Bytes
up_to_blank [] = []
up_to_blank (c ∷ s) = if c == b' ' then [] else c ∷ up_to_blank s

-- `qe->query[word_num][…] = …; word_num++`: a fifth word, or one without room for its NUL, is
-- written out of bounds.
unfoldable pub push_word : Bytes → QueryExpression → Option QueryExpression
push_word w e =
    if ltb (length e.query) max_query_word_num && ltb (length w) 256
    then some (record e { query = e.query ++ w ∷ [] })
    else none

-- `qe->logic_ops[ops++] = c`
unfoldable pub push_op : ℕ → QueryExpression → Option QueryExpression
push_op c e =
    if ltb (length e.logic_ops) 3
    then some (record e { logic_ops = e.logic_ops ++ c ∷ [] })
    else none

-- The loop of `parse`. `seg` is query[start .. i) and the text matched on is query + i, so that
-- query + start is the two together; the character at `i` is no blank where `seg` is trimmed.
unfoldable pub parse_loop : Bytes → Bytes → QueryExpression → Option QueryExpression
parse_loop seg [] e = some e
parse_loop seg (c ∷ s) e = elim (still_has_logic (seg ++ c ∷ s)) [
  | false ↦ push_word (up_to_blank (skip_blanks (seg ++ c ∷ s))) e
  | true ↦ elim (is_logic c) [
    | true ↦ do
      e₁ ← push_op c e
      e₂ ← push_word (up_to_blank (skip_blanks seg)) e₁
      parse_loop [] s e₂
    | false ↦ parse_loop (seg ++ c ∷ []) s e
  ]
]

-- `if (length > 0 && length < 1000) memcpy(qe->full_text, …)`, into 256 bytes that end in a NUL.
unfoldable pub set_full_text : Bytes → QueryExpression → Option QueryExpression
set_full_text query e =
    if ltb 0 (length query) && ltb (length query) 1000
    then (if ltb (length query) 256 then some (record e { full_text = query }) else none)
    else some e

-- `parse`, before the words go to the automaton.
unfoldable pub parse_expression : Bytes → Option QueryExpression
unfolding new_query_expression
parse_expression query = do e ← set_full_text query new_query_expression; parse_loop [] query e

unfoldable pub in_match_word_list : Bytes → List Bytes → Bool
in_match_word_list term [] = false
in_match_word_list term (w ∷ ws) = if bytes_eq w term then true else in_match_word_list term ws

unfoldable pub populate_tf : QueryExpression → List Bytes → QueryExpression
populate_tf e kw = record e { tf = map (λ w. in_match_word_list w kw) e.query }

abbrev tf_at : QueryExpression → ℕ → Bool
tf_at e i = get_or e.tf i false

abbrev op_at : QueryExpression → ℕ → ℕ
op_at e i = get_or e.logic_ops i 0

-- The `if`s of `match_` and `match_N` on a populated expression; `none` is the `free(kw)` of a
-- local array behind them.
unfoldable pub evaluate : QueryExpression → Option Bool
evaluate e =
    if length e.query == 1
    then some (tf_at e 0)
    else if length e.query == 2
    then (if op_at e 0 == b'#'
        then some (tf_at e 0 || tf_at e 1)
        else if op_at e 0 == b'&'
        then some (tf_at e 0 && tf_at e 1)
        else none)
    else if length e.query == 3
    then (if op_at e 0 == b'#' && op_at e 1 == b'#'
        then some (tf_at e 0 || tf_at e 1 || tf_at e 2)
        else if op_at e 0 == b'#' && op_at e 1 == b'&'
        then some (tf_at e 0 || (tf_at e 1 && tf_at e 2))
        else if op_at e 0 == b'&' && op_at e 1 == b'#'
        then some ((tf_at e 0 && tf_at e 1) || tf_at e 2)
        else if op_at e 0 == b'&' && op_at e 1 == b'&'
        then some (tf_at e 0 && tf_at e 1 && tf_at e 2)
        else none)
    else none

-- `match_`
unfoldable pub match_ : (Bytes → List Bytes) → QueryExpression → Bytes → Option Bool
match_ keywords e text = evaluate (populate_tf e (keywords text))

-- `struct query_table`: its first `query_count` places, NULL being none.
abbrev pub QueryTable : Type 0
QueryTable = List (Option QueryExpression)

unfoldable pub init_query_table : QueryTable
init_query_table = []

-- for (i = 0; i < word_num; i++) addstr(qe->query[i]);
unfoldable pub add_words : {S : Type 0} → (S → Bytes → Option S) → S → List Bytes → Option S
add_words addstr s [] = some s
add_words addstr s (w ∷ ws) = do s' ← addstr s w; add_words addstr s' ws

abbrev pub table_size : ℕ
table_size = 10000

-- `add_query_rule`
unfoldable pub add_query_rule :
    {S : Type 0} → (S → Bytes → Option S) → S × QueryTable → Bytes → Option (S × QueryTable)
unfolding parse_expression add_words
add_query_rule addstr (s, table) query = do
  e ← parse_expression query
  s' ← add_words addstr s e.query
  (if ltb (length table) table_size then some (s', table ++ some e ∷ []) else none)

-- One round of `del_query_rule`.
unfoldable pub erase_rule : Bytes → Option QueryExpression → Option QueryExpression
erase_rule query none = none
erase_rule query (some e) = if bytes_eq e.full_text query then none else some e

-- `del_query_rule`
unfoldable pub del_query_rule : QueryTable → Bytes → QueryTable
del_query_rule table query = map (erase_rule query) table

-- The second table and automaton (with _N in the source): the statements are the same.
unfoldable pub init_query_table_N : QueryTable
init_query_table_N = []

unfoldable pub parse_expression_N : Bytes → Option QueryExpression
unfolding parse_expression
parse_expression_N query = parse_expression query

unfoldable pub add_query_rule_N :
    {S : Type 0} → (S → Bytes → Option S) → S × QueryTable → Bytes → Option (S × QueryTable)
unfolding parse_expression_N add_words
add_query_rule_N addstr_N (s, table) query = do
  e ← parse_expression_N query
  s' ← add_words addstr_N s e.query
  (if ltb (length table) table_size then some (s', table ++ some e ∷ []) else none)

unfoldable pub del_query_rule_N : QueryTable → Bytes → QueryTable
unfolding erase_rule
del_query_rule_N table query = map (erase_rule query) table

abbrev pub max_logic_hit_result_len : ℕ
max_logic_hit_result_len = 32

-- `rtn->hit_rule_list[rtn->hit_count++] = i`
unfoldable pub push_hit : Bool → ℕ → List ℕ → Option (List ℕ)
push_hit false i hits = some hits
push_hit true i hits =
    if ltb (length hits) max_logic_hit_result_len then some (hits ++ i ∷ []) else none

unfoldable pub match_loop : (Bytes → List Bytes) → ℕ → QueryTable → Bytes → List ℕ → Option (List ℕ)
match_loop keywords i [] text hits = some hits
match_loop keywords i (none ∷ table) text hits = match_loop keywords (i + 1) table text hits
match_loop keywords i (some e ∷ table) text hits = do
  hit ← match_ keywords e text
  hits' ← push_hit hit i hits
  match_loop keywords (i + 1) table text hits'

-- `logic_query_match`: the list of hits.
unfoldable pub logic_query_match : (Bytes → List Bytes) → QueryTable → Bytes → Option (List ℕ)
logic_query_match keywords table text = match_loop keywords 0 table text []

unfoldable pub match_N : (Bytes → List Bytes) → QueryExpression → Bytes → Option Bool
unfolding match_
match_N keywords_N e text = match_ keywords_N e text

unfoldable pub logic_query_match_N : (Bytes → List Bytes) → QueryTable → Bytes → Option (List ℕ)
unfolding match_loop
logic_query_match_N keywords_N table text = match_loop keywords_N 0 table text []
