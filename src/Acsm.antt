-- ===== src/Acsm.antt =====
-- acsmx.c: the Aho-Corasick automaton: its queue, its pattern list, its state table, the compilation
-- to a DFA and the three searches.
pub mod Search
pub mod States
pub mod Patterns
pub mod Rows
pub mod Tree
pub mod Labels
pub mod Insertion
pub mod Longest
pub mod Failure
pub mod Bfs
pub mod Step
pub mod Enter
pub mod Loop
pub mod Finish
pub mod First
pub mod Compile
pub mod Occurrences
mod Examples
use school_project.Common.{
  ℕ, zero, suc, ◌+◌, ◌-◌, Bool, true, false, Option, none, some, List, [], ◌∷◌, ◌++◌, ltb, ◌==◌,
  if◌then◌else◌, ◌>>=◌, Bytes, bytes_eq, length,
}
use mathlib.Core.List.{foldl}

abbrev pub alphabet_size : ℕ
alphabet_size = 256

-- `ACSM_STATETABLE`: a transition is `none` for ACSM_FAIL_STATE; `match_list` holds the patterns
-- that end here, the last one added first.
pub record StateRow : Type 0 where
  pub next_state : ℕ → Option ℕ
  pub fail_state : ℕ
  pub match_list : List Bytes

abbrev pub StateTable : Type 0
StateTable = ℕ → StateRow

-- `ACSM_STRUCT`. `state_table` is none while the pointer is NULL.
pub record Acsm : Type 0 where
  pub max_states : ℕ
  pub num_states : ℕ
  pub patterns : List Bytes
  pub state_table : Option StateTable

-- The linked queue, as the list of its states from head to tail.
unfoldable pub queue_add : List ℕ → ℕ → List ℕ
queue_add q s = q ++ s ∷ []

unfoldable pub queue_remove : List ℕ → ℕ × List ℕ
queue_remove [] = (0, [])
queue_remove (s ∷ q) = (s, q)

unfoldable pub queue_count : List ℕ → ℕ
queue_count q = length q

unfoldable pub set_row : StateTable → ℕ → StateRow → StateTable
set_row t s r k = if k == s then r else t k

unfoldable pub set_next : StateTable → ℕ → ℕ → Option ℕ → StateTable
unfolding set_row
set_next t s c v =
    set_row t s (record (t s) { next_state = λ d. if d == c then v else (t s).next_state d })

unfoldable pub set_fail : StateTable → ℕ → ℕ → StateTable
unfolding set_row
set_fail t s f = set_row t s (record (t s) { fail_state = f })

-- `AddMatchListEntry`
unfoldable pub add_match_list_entry : StateTable → ℕ → Bytes → StateTable
unfolding set_row
add_match_list_entry t s p = set_row t s (record (t s) { match_list = p ∷ (t s).match_list })

unfoldable pub acsm_new : Acsm
acsm_new = record { max_states = 0; num_states = 0; patterns = []; state_table = none }

unfoldable pub acsm_add_pattern : Acsm → Bytes → Acsm
acsm_add_pattern a p = record a { patterns = p ∷ a.patterns }

-- The `while` of `acsmDelPattern`, behind the first pattern.
unfoldable pub del_after : List Bytes → Bytes → List Bytes
del_after [] p = []
del_after (q ∷ qs) p = if bytes_eq p q then qs else q ∷ del_after qs p

-- `acsmDelPattern`: it reads the first pattern before it looks whether there is one.
unfoldable pub del_pattern : List Bytes → Bytes → Option (List Bytes)
del_pattern [] p = none
del_pattern (q ∷ qs) p = if bytes_eq p q then some qs else some (q ∷ del_after qs p)

unfoldable pub acsm_del_pattern : Acsm → Bytes → Option Acsm
unfolding del_pattern
acsm_del_pattern a p = do ps ← del_pattern a.patterns p; some (record a { patterns = ps })

-- The first loop of `AddPatternStates`: the state that is reached and the rest of the pattern.
unfoldable pub follow_pattern : StateTable → ℕ → Bytes → ℕ × Bytes
follow_pattern t s [] = (s, [])
follow_pattern t s (c ∷ p) = elim ((t s).next_state c) [
  | none ↦ (s, c ∷ p)
  | some n ↦ follow_pattern t n p
]

-- The table and `acsmNumStates`, while patterns are added.
pub record Building : Type 0 where
  pub table : StateTable
  pub num : ℕ

-- Its second loop: one new state for each byte left.
unfoldable pub new_states : Building → ℕ → Bytes → Building × ℕ
unfolding set_next
new_states b s [] = (b, s)
new_states b s (c ∷ p) =
    new_states (record { table = set_next b.table s c (some (b.num + 1)); num = b.num + 1 })
      (b.num + 1) p

unfoldable pub add_pattern_states : Building → Bytes → Building
unfolding follow_pattern new_states add_match_list_entry
add_pattern_states b p =
    let (s, rest) = follow_pattern b.table 0 p in
    let (b', s') = new_states b s rest in record b' { table = add_match_list_entry b'.table s' p }

-- The `while` of `Build_DFA` that follows failure states; `none` if the fuel runs out.
unfoldable pub next_valid : ℕ → StateTable → ℕ → ℕ → Option ℕ
next_valid zero t fs c = none
next_valid (suc fuel) t fs c = elim ((t fs).next_state c) [
  | none ↦ next_valid fuel t (t fs).fail_state c
  | some n ↦ some n
]

-- The work of `Build_DFA`: the table and the queue.
pub record Work : Type 0 where
  pub table : StateTable
  pub queue : List ℕ

-- The body of the inner `for`, at the transition of state `r` on byte `c`.
unfoldable pub build_byte : ℕ → ℕ → ℕ → Work → Option Work
unfolding queue_add set_fail set_next add_match_list_entry
build_byte fuel r c w = elim ((w.table r).next_state c) [
  | some s ↦ do
    next ← next_valid fuel w.table (w.table r).fail_state c
    some (record {
      table =
          foldl (λ t p. add_match_list_entry t s p) (set_fail w.table s next)
            (w.table next).match_list;
      queue = queue_add w.queue s;
    })
  | none ↦
      some
        (record w { table = set_next w.table r c ((w.table (w.table r).fail_state).next_state c) })
]

-- for (i = c; i < c + k; i++)
unfoldable pub build_bytes : ℕ → ℕ → ℕ → ℕ → Work → Option Work
build_bytes fuel r zero c w = some w
build_bytes fuel r (suc k) c w = do w' ← build_byte fuel r c w; build_bytes fuel r k (c + 1) w'

-- while (queue_count (queue) > 0); `none` if the fuel runs out.
unfoldable pub build_loop : ℕ → Work → Option Work
build_loop zero w = elim w.queue [ [] ↦ some w | _ ↦ none ]
build_loop (suc fuel) w = elim w.queue [
  | [] ↦ some w
  | r ∷ q ↦ do
    w' ← build_bytes (suc fuel) r alphabet_size 0 (record w { queue = q })
    build_loop fuel w'
]

-- The first `for` of `Build_DFA`: the states below the root. (A state of -1 would be written at
-- index -1; `close_root` leaves none.)
unfoldable pub first_states : ℕ → ℕ → Work → Option Work
unfolding queue_add set_fail
first_states zero c w = some w
first_states (suc k) c w = elim ((w.table 0).next_state c) [
  | none ↦ none
  | some zero ↦ first_states k (c + 1) w
  | some (suc s) ↦
      first_states k (c + 1)
        (record { table = set_fail w.table (suc s) 0; queue = queue_add w.queue (suc s) })
]

unfoldable pub build_dfa : ℕ → StateTable → Option StateTable
unfolding first_states build_loop build_bytes build_byte next_valid
build_dfa fuel t = do
  first ← first_states alphabet_size 0 (record { table = t; queue = [] })
  w ← build_loop fuel first
  some w.table

-- `memset`, and the loop that sets every transition to ACSM_FAIL_STATE.
unfoldable pub empty_table : StateTable
empty_table s = record { next_state = λ c. none; fail_state = 0; match_list = [] }

-- All failed transitions of state 0 return to it.
unfoldable pub close_root : StateTable → StateTable
close_root t s =
    if s == 0
    then record (t s) {
      next_state = λ c. elim ((t 0).next_state c) [ none ↦ some 0 | some n ↦ some n ];
    }
    else t s

unfoldable pub total_length : List Bytes → ℕ
total_length [] = 0
total_length (p ∷ ps) = length p + total_length ps

-- The states that `acsmCompile` has made before it builds the DFA.
unfoldable pub pattern_states : List Bytes → Building
unfolding add_pattern_states empty_table
pattern_states ps = foldl add_pattern_states (record { table = empty_table; num = 0 }) ps

-- `acsmCompile`. The outer loop takes each state out of the queue at most once, so as many rounds
-- as there are states are enough, and a chain of failures is no longer than that.
unfoldable pub acsm_compile : Acsm → Option Acsm
unfolding pattern_states close_root build_dfa total_length
acsm_compile a = do
  t ← build_dfa (total_length a.patterns + 1) (close_root (pattern_states a.patterns).table)
  some (record a {
    max_states = 1 + total_length a.patterns;
    num_states = (pattern_states a.patterns).num;
    state_table = some t;
  })

-- The loop of `acsmSearch` on the text that is left; `none` is an index of -1.
unfoldable pub search_loop : StateTable → ℕ → Bytes → ℕ → Option ℕ
search_loop t s [] nfound = some nfound
search_loop t s (c ∷ text) nfound = do
  s' ← (t s).next_state c
  search_loop t s' text (nfound + length (t s').match_list)

-- A search before the first compilation reads the text only if there is some, through NULL.
abbrev pub searched : {A : Type 0} → Acsm → Bytes → A → (StateTable → Option A) → Option A
searched a [] empty f = some empty
searched a (c ∷ text) empty f = a.state_table >>= f

unfoldable pub acsm_search : Acsm → Bytes → Option ℕ
unfolding search_loop
acsm_search a text = searched a text 0 (λ t. search_loop t 0 text 0)

-- The offsets that one state reports at position `i`: index = T - mlist->n + 1 - Tx. (A pattern
-- is no longer than what has been read.)
unfoldable pub offsets_at : ℕ → List Bytes → List ℕ
offsets_at i [] = []
offsets_at i (p ∷ ps) = (i + 1 - length p) ∷ offsets_at i ps

-- The loop of `acsmSearch_offset`; `i` is T - Tx and `offsetlist` is what has been written.
unfoldable pub search_offset_loop : StateTable → ℕ → ℕ → Bytes → List ℕ → Option (List ℕ)
search_offset_loop t s i [] offsetlist = some offsetlist
search_offset_loop t s i (c ∷ text) offsetlist = do
  s' ← (t s).next_state c
  search_offset_loop t s' (i + 1) text (offsetlist ++ offsets_at i (t s').match_list)

unfoldable pub acsm_search_offset : Acsm → Bytes → Option (List ℕ)
unfolding search_offset_loop offsets_at
acsm_search_offset a text = searched a text [] (λ t. search_offset_loop t 0 0 text [])

-- The loop of `acsmSearch_kw`: the patterns that are copied to `keywords`.
unfoldable pub search_kw_loop : StateTable → ℕ → Bytes → List Bytes → Option (List Bytes)
search_kw_loop t s [] keywords = some keywords
search_kw_loop t s (c ∷ text) keywords = do
  s' ← (t s).next_state c
  search_kw_loop t s' text (keywords ++ (t s').match_list)

unfoldable pub acsm_search_kw : Acsm → Bytes → Option (List Bytes)
unfolding search_kw_loop
acsm_search_kw a text = searched a text [] (λ t. search_kw_loop t 0 text [])
