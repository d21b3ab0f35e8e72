-- ===== src/Trie.antt =====
-- trie.c: the tree of rules "subject action resource", with its reference counts, its wildcard
-- match and its global state. The proofs are in the children.

pub mod Alphabet
pub mod Stored
pub mod Match
pub mod Refs
pub mod Insert
pub mod Delete
pub mod Rules
pub mod Check
mod Examples
use school_project.Common.{
  ℕ, zero, suc, ◌+◌, ◌-◌, ◌%◌, ◌^◌, Bool, true, false, not, ◌&&◌, ◌||◌, Option, none, some, [], ◌∷◌,
  ◌++◌, ltb, leb, ◌==◌, if◌then◌else◌, ◌>>=◌, skip_if, Bytes, codes,
}

-- `struct node`: a NULL pointer, or `ref` (the bits of a `short`), `pattern_id` (none for -1) and
-- the array `child`, of which the code uses the places below CHILDNUM = 12.
pub data Node : Type 0 where
  null : Node
  node : ℕ → Option ℕ → (ℕ → Node) → Node

abbrev pub childnum : ℕ
childnum = 12

-- `c2i`: a character outside the alphabet runs off the end of the function, which is `none`.
unfoldable pub c2i : ℕ → Option ℕ
c2i c =
    if leb b'0' c && leb c b'9'
    then some (c - b'0')
    else if c == b'*'
    then some 10
    else if c == b' '
    then some 11
    else none

unfoldable pub i2c : ℕ → Option ℕ
i2c i =
    if leb 0 i && leb i 9
    then some (i + b'0')
    else if i == 10
    then some b'*'
    else if i == 11
    then some b' '
    else none

abbrev pub star : ℕ
star = 10

abbrev pub no_children : ℕ → Node
no_children i = null

unfoldable pub new_node : Node
new_node = node 1 none no_children

unfoldable pub is_null : Node → Bool
is_null null = true
is_null (node ref id child) = ref == 0

-- The loop of `has_child`, over the places from 0 up to `k`.
unfoldable pub any_child : ℕ → (ℕ → Node) → Bool
any_child zero child = false
any_child (suc k) child = any_child k child || not (is_null (child k))

unfoldable pub has_child : (ℕ → Node) → Bool
unfolding any_child is_null
has_child child = any_child childnum child

-- for (i = offset; pattern[i] != ' ' && i < strlen(pattern); ++i);
unfoldable pub skip_run : Bytes → Bytes
skip_run [] = []
skip_run (c ∷ s) = if c == b' ' then c ∷ s else skip_run s

-- The out-parameters of a match, `*find` and `*pattern_id`.
pub record Hit : Type 0 where
  pub find : Bool
  pub pattern_id : Option ℕ

-- At the end of the text: `*find |= …`, and the id is written if there is one.
unfoldable pub arrive : Option ℕ → Hit → Hit
arrive none h = record h { find = h.find || false }
arrive (some id) h = record { find = h.find || true; pattern_id = some id }

-- `match_`. `none` is undefined behaviour: a character with no index, or a NULL tree.
unfoldable pub match_ : Node → Bytes → Hit → Option Hit
match_ null s h = none
match_ (node ref id child) [] h = some (arrive id h)
match_ (node ref id child) (c ∷ s) h = elim (has_child child) [
  | false ↦ some (record h { find = h.find || false })
  | true ↦ do
    i ← c2i c
    h' ← skip_if (is_null (child i)) h (match_ (child i) s h)
    skip_if (is_null (child star)) h' (match_ (child star) (skip_run (c ∷ s)) h')
]

abbrev pub no_hit : Option ℕ → Hit
no_hit id = record { find = false; pattern_id = id }

abbrev pub update : (ℕ → Node) → ℕ → Node → ℕ → Node
update child i t j = if i == j then t else child j

-- The step of both insertions at a child: a new node, or one more reference (a `short` wraps).
unfoldable pub reference : Node → Node
unfolding new_node
reference null = new_node
reference (node ref id child) = node ((ref + 1) % 2 ^ 16) id child

-- The loop of `insert_for_userid` and `insert_for_resourceid`, then `tmp->pattern_id = id`.
unfoldable pub insert_path : Node → Bytes → ℕ → Option Node
unfolding reference
insert_path null p id = none
insert_path (node ref old child) [] id = some (node ref (some id) child)
insert_path (node ref old child) (c ∷ p) id = do
  i ← c2i c
  t ← insert_path (reference (child i)) p id
  some (node ref old (update child i t))

-- The first loop of `del`: the node at which the walk ends (`some (some t)`), or its `break`
-- (`some none`).
unfoldable pub walk : Node → Bytes → Option (Option Node)
walk null p = none
walk (node ref id child) [] = some (some (node ref id child))
walk (node ref id child) (c ∷ p) = do i ← c2i c; skip_if (is_null (child i)) none (walk (child i) p)

-- `if (ref >= 1) ref--`: as a signed `short`.
unfoldable pub release : Node → Node
release null = null
release (node ref id child) =
    if leb 1 ref && ltb ref (2 ^ 15) then node (ref - 1) id child else node ref id child

-- The second loop of `del`, then `tmp->pattern_id = -1`.
unfoldable pub release_path : Node → Bytes → Option Node
unfolding release
release_path null p = none
release_path (node ref id child) [] = some (node ref none child)
release_path (node ref id child) (c ∷ p) = do
  i ← c2i c
  t ← release_path (release (child i)) p
  some (node ref id (update child i t))

-- The globals of trie.c that the operations change.
pub record TrieState : Type 0 where
  pub global_pattern_id_for_userid : ℕ
  pub global_pattern_id_for_resourceid : ℕ
  pub trie_tree_root : Node

-- `init_trie_tree`, before the rules of the data base are added.
unfoldable pub init_trie_tree : TrieState
unfolding new_node
init_trie_tree = record {
  global_pattern_id_for_userid = 0;
  global_pattern_id_for_resourceid = 1;
  trie_tree_root = new_node;
}

unfoldable pub insert_for_userid : TrieState → Bytes → Option TrieState
unfolding insert_path
insert_for_userid s p = do
  t ← insert_path s.trie_tree_root p s.global_pattern_id_for_userid
  some (record {
    global_pattern_id_for_userid = s.global_pattern_id_for_userid + 2;
    global_pattern_id_for_resourceid = s.global_pattern_id_for_resourceid;
    trie_tree_root = t;
  })

unfoldable pub insert_for_resourceid : TrieState → Bytes → Option TrieState
unfolding insert_path
insert_for_resourceid s p = do
  t ← insert_path s.trie_tree_root p s.global_pattern_id_for_resourceid
  some (record {
    global_pattern_id_for_userid = s.global_pattern_id_for_userid;
    global_pattern_id_for_resourceid = s.global_pattern_id_for_resourceid + 2;
    trie_tree_root = t;
  })

-- The `if (i == len && tmp->pattern_id != -1)` of `del`.
abbrev pub ends_at_rule : Option Node → Bool
ends_at_rule none = false
ends_at_rule (some null) = false
ends_at_rule (some (node ref none child)) = false
ends_at_rule (some (node ref (some id) child)) = true

unfoldable pub del : TrieState → Bytes → Option TrieState
unfolding walk release_path
del s p = do
  end ← walk s.trie_tree_root p
  skip_if (not (ends_at_rule end)) s
      (do t ← release_path s.trie_tree_root p; some (record s { trie_tree_root = t }))

unfoldable pub match : TrieState → Bytes → Option ℕ → Option Hit
unfolding match_ c2i is_null has_child skip_run arrive
match s tupe pattern_id = match_ s.trie_tree_root tupe (no_hit pattern_id)

-- The text that the `trie_…_rule` functions build.
unfoldable pub rule_text : Bytes → Bytes → Bytes → Bytes
rule_text subject action resource = subject ++ (b' ' ∷ (action ++ (b' ' ∷ resource)))

abbrev starred : Bytes → Bool
starred [] = false
starred (c ∷ s) = c == b'*'

-- `if (NULL == trie_tree_root)` in the three `trie_…_rule` functions.
abbrev pub if_no_root : {A : Type 0} → Node → A → A → A
if_no_root null fail go = fail
if_no_root (node ref id child) fail go = go

unfoldable pub trie_add_rule : TrieState → Bytes → Bytes → Bytes → Option TrieState
unfolding rule_text insert_for_resourceid insert_for_userid
trie_add_rule s subject action resource = if_no_root s.trie_tree_root (some s) (
    if starred subject
    then insert_for_resourceid s (rule_text subject action resource)
    else if starred resource
    then insert_for_userid s (rule_text subject action resource)
    else some s)

unfoldable pub trie_del_rule : TrieState → Bytes → Bytes → Bytes → Option TrieState
unfolding rule_text del
trie_del_rule s subject action resource =
    if_no_root s.trie_tree_root (some s) (del s (rule_text subject action resource))

-- `trie_chk_rule_`
unfoldable pub check_one : TrieState → Bytes → Bytes → Bytes → Option ℕ → Option Hit
check_one s subject action resource pattern_id =
    if_no_root s.trie_tree_root (some (no_hit pattern_id))
      (match s (rule_text subject action resource) pattern_id)

abbrev pub not_found : Bytes
not_found = codes "NotFound"

-- What `memcpy(id, "NotFound", 8)` leaves in a zeroed id buffer, where the id is empty.
unfoldable pub or_not_found : Bytes → Bytes
or_not_found [] = not_found
or_not_found (c ∷ s) = c ∷ s

abbrev pub found_count : Hit → ℕ
found_count h = if h.find then 1 else 0

pub record Verdict : Type 0 where
  pub count : ℕ
  pub first : Option ℕ
  pub second : Option ℕ

-- `trie_chk_rule`; `action` is the decimal text of `act`, which `sprintf` writes.
unfoldable pub trie_chk_rule :
    TrieState → Bytes → Bytes → ℕ → Bytes → Bytes → Option ℕ → Option ℕ → Option Verdict
trie_chk_rule s u_id s_id act action r_id id1 id2 =
    if act == 0 then some (record { count = 0; first = id1; second = id2 }) else do
      a ← check_one s (or_not_found u_id) action (or_not_found s_id) id1
      b ← check_one s (or_not_found u_id) action (or_not_found r_id) id2
      some (record {
        count = found_count a + found_count b;
        first = a.pattern_id;
        second = b.pattern_id;
      })
