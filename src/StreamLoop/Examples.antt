-- ===== src/StreamLoop/Examples.antt =====
-- loop.c: runs, and witnesses.
use school_project.Common.{
  ℕ, ◌-◌, ◌≤◌, ◌<◌, ◌≡◌, refl, true, false, Option, none, some, List, [], ◌∷◌, Bytes, codes, arith,
}
use school_project.Decision.{Decision, block}
use school_project.StreamTable.{DataHead, TcpStream}
use school_project.StreamLoop.{
  thread_num, data_cache_table_size, check_gk, set_gk, update_dh, get_request, process_data_head,
}
use school_project.StreamLoop.Rounds.{Owns, rounds, thread_unique, loop-visits}
use school_project.StreamLoop.Looks.{process_data_head-null}
use school_project.Acsm.{
  Acsm, acsm_new, acsm_add_pattern, acsm_compile, acsm_search, acsm_search_offset,
}
use school_project.StringMatcher.{init_ac}
use school_project.StreamLoop.Locks.{set_gk-leak}

abbrev stream : TcpStream
stream = record {
  pointer = 7;
  addr = record { source = 7; dest = 80; saddr = 1; daddr = 2 };
  gk_state = 0;
}

-- A head that has not been looked at.
abbrev fresh_head : DataHead
fresh_head = record {
  a_tcp = some stream;
  up = codes "GET /" ∷ [];
  temp_up = none;
  offset_up = 0;
  down = [];
  offset_down = 0;
  current_block = none;
  has_buffers = true;
  dist = 0;
  lit = 0;
  locked = false;
}

abbrev gone_head : DataHead
gone_head = record fresh_head { a_tcp = none; up = [] }

abbrev all_blocked : Bytes → Decision
all_blocked r = block

thread_unique_example :
    (40000 < data_cache_table_size
      → (index : ℕ) × (index < thread_num)
        × Owns index 40000
        × ((other : ℕ) → other < thread_num → Owns other 40000 → other ≡ index))
    × ((index : ℕ) → index < thread_num → Owns index 40000 → 40000 < data_cache_table_size)
thread_unique_example = thread_unique 40000

loop-visits_example : (n : ℕ) × (n ≤ 33334 - 0) × (rounds 0 33334 n 5 ≡ 2)
loop-visits_example =
    loop-visits 0 33334 5 2 (ground arith) (ground arith) (ground arith) (ground arith)

process_data_head-null_example :
    ((check_gk 2 fresh_head).0 ≡ true
      → process_data_head (init_ac none) all_blocked 2 fresh_head ≡ some (check_gk 2 fresh_head).1)
    × ((check_gk 2 fresh_head).0 ≡ false
        → process_data_head (init_ac none) all_blocked 2 fresh_head ≡ none)
unfolding init_ac
process_data_head-null_example =
    process_data_head-null (init_ac none) all_blocked 2 fresh_head refl refl (λ i e. absurd (cc e))

-- An automaton for the requests, as the lines that are commented out make one.
abbrev get_only : Option Acsm
get_only = acsm_compile (acsm_add_pattern acsm_new (codes "GET"))

-- "GET" stands at place 2 and is found there or behind it: the piece is as long as what follows, and
-- it begins at place 0.
request_cut : get_request (init_ac get_only) (codes "xxGET /a") ≡ some (codes "xxGET " ∷ [])
unfolding get_request acsm_search acsm_search_offset acsm_compile acsm_add_pattern acsm_new init_ac
request_cut = refl

set_gk-leak_example :
    ((set_gk 2 gone_head).locked ≡ true)
    × ((gk_method : ℕ) → check_gk gk_method (set_gk 2 gone_head) ≡ (false, set_gk 2 gone_head))
    × ((m : ℕ) → set_gk m (set_gk 2 gone_head) ≡ set_gk 2 gone_head)
    × ((request : List Bytes) → update_dh request (set_gk 2 gone_head) ≡ set_gk 2 gone_head)
set_gk-leak_example = set_gk-leak 2 gone_head (λ e. absurd (omega (arith, e))) refl refl
