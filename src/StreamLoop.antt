-- ===== src/StreamLoop.antt =====
-- loop.c: the threads that look through the table of streams, and what they do with a head.
pub mod Rounds
pub mod Heads
pub mod Locks
pub mod Looks
mod Examples
use school_project.Common.{
  ℕ, zero, suc, ◌+◌, ◌-◌, ◌*◌, ◌/◌, Bool, true, false, ◌&&◌, ◌||◌, Option, none, some, List, [],
  ◌∷◌, ◌++◌, ◌==◌, ltb, if◌then◌else◌, ◌>>=◌, Bytes, length, take, drop, until_nul,
}
use school_project.Acsm.{total_length}
use school_project.Decision.{Decision, block, pass, no_info}
use school_project.StringMatcher.{Matchers, get_request_number, get_request_offset}
use school_project.StreamTable.{DataHead, TcpStream}

abbrev pub data_cache_table_size : ℕ
data_cache_table_size = 100003

abbrev pub thread_num : ℕ
thread_num = 3

-- `startidx` and `lastidx` of a thread.
unfoldable pub thread_range : ℕ → ℕ × ℕ
thread_range index =
    let steplen = data_cache_table_size / thread_num in
    (
      index * steplen,
      if index == thread_num - 1 then data_cache_table_size else (index + 1) * steplen,
    )

-- The index after `loopcount` in the endless loop.
unfoldable pub next_index : ℕ → ℕ → ℕ → ℕ
next_index startidx lastidx loopcount = if loopcount == lastidx - 1 then startidx else loopcount + 1

-- `check_gk`: whether there is nothing to do, and the head. `temp_up == last_up` is the last place.
unfoldable pub check_gk : ℕ → DataHead → Bool × DataHead
check_gk gk_method dh = if dh.locked then (false, dh) else elim dh.a_tcp [
  | none ↦ (true, dh)
  | some t ↦
      if t.gk_state == gk_method
      then (true, dh)
      else if length dh.up == 0
      then (true, dh)
      else elim dh.temp_up [
        | none ↦ (false, record dh { temp_up = some 0 })
        | some i ↦ (i + 1 == length dh.up, dh)
      ]
]

-- `set_gk`: without a stream the lock is not given back.
unfoldable pub set_gk : ℕ → DataHead → DataHead
set_gk method dh = if method == 5 then dh else if dh.locked then dh else elim dh.a_tcp [
  | none ↦ record dh { locked = true }
  | some t ↦ record dh { a_tcp = some (record t { gk_state = method }) }
]

-- The `while` of `update_dh`: how many segments it passes.
unfoldable pub pass_segments : ℕ → ℕ → List Bytes → ℕ
pass_segments len sum [] = 0
pass_segments len sum (ds ∷ l) =
    let rest = pass_segments len (sum + length ds) l in if ltb sum len then suc rest else 0

-- `last_up`
unfoldable pub last_place : List Bytes → Option ℕ
last_place [] = none
last_place (ds ∷ l) = some (length l)

-- `update_dh`, with `int` taken to be large enough for the sums.
unfoldable pub update_dh : List Bytes → DataHead → DataHead
unfolding total_length pass_segments last_place
update_dh request dh = if dh.locked then dh else elim dh.a_tcp [
  | none ↦ dh
  | some t ↦
      let n = pass_segments (total_length request) 0 dh.up in
      record dh { temp_up = if n == length dh.up then last_place dh.up else some n; offset_up = 0 }
]

-- All segments, one behind the other.
unfoldable pub flat : List Bytes → Bytes
flat [] = []
flat (ds ∷ l) = ds ++ flat l

unfoldable pub is_block : Decision → Bool
is_block block = true
is_block pass = false
is_block no_info = false

-- What `get_buffer` returns: NULL, or the bytes that it has copied.
pub data Buffer : Type 0 where
  no_buffer : Buffer
  buffer : Bytes → Buffer

-- The bytes from place `offset` of the first segment on.
unfoldable pub copy_segments : ℕ → List Bytes → Option Buffer
unfolding flat
copy_segments offset [] = none
copy_segments offset (ds ∷ l) =
    if ltb (length ds) offset then none else some (buffer (drop offset ds ++ flat l))

-- `get_buffer`; an offset behind the first segment gives memcpy a length below 0.
unfoldable pub get_buffer : DataHead → Option Buffer
unfolding copy_segments
get_buffer dh = if dh.locked then some no_buffer else elim dh.a_tcp [
  | none ↦ some no_buffer
  | some t ↦ elim dh.temp_up [
    | none ↦ some (buffer [])
    | some i ↦ copy_segments dh.offset_up (drop i dh.up)
  ]
]

-- The loop of `get_request`: pieces as long as from one offset to the next, from `p` on.
unfoldable pub pieces : Bytes → List ℕ → ℕ → Option (List Bytes)
pieces p [] end = some []
pieces p (o ∷ []) end = if ltb end o then none else some (take (end - o) p ∷ [])
pieces p (o ∷ o' ∷ os) end =
    let rest = pieces (drop (o' - o) p) (o' ∷ os) end in
    if ltb o' o then none else rest >>= (λ requests. some (take (o' - o) p ∷ requests))

-- `get_request`; the pieces are copied from the start of the buffer on, not from the first offset.
unfoldable pub get_request : Matchers → Bytes → Option (List Bytes)
unfolding get_request_number get_request_offset pieces
get_request m text = get_request_number m text >>= (λ n.
    if n == 0
    then some []
    else get_request_offset m text >>= (λ offsets. pieces text offsets (length text)))

-- The requests that `process_data_head` finds; without a buffer there are none.
unfoldable pub find_requests : Matchers → DataHead → Option (List Bytes)
unfolding get_buffer get_request until_nul
find_requests m dh =
    get_buffer dh
    >>= (λ b. elim b [ no_buffer ↦ some [] | buffer bytes ↦ get_request m (until_nul bytes) ])

-- `status` in the loop over the requests: whether one of them is neither 0 nor -1.
unfoldable pub any_block : (Bytes → Decision) → List Bytes → Bool
unfolding is_block
any_block decision [] = false
any_block decision (r ∷ rs) = is_block (decision r) || any_block decision rs

-- The rest of `process_data_head` behind the search for requests. For a request that is blocked
-- `set_gk` is called, and then `c_info` is read, which was freed before.
unfoldable pub look : (Bytes → Decision) → List Bytes → DataHead → Option DataHead
unfolding any_block update_dh
look decision requests dh =
    if any_block decision requests then none else some (update_dh requests dh)

-- `process_data_head`. `decision` is what processhttp and get_decision say of a request.
unfoldable pub process_data_head : Matchers → (Bytes → Decision) → ℕ → DataHead → Option DataHead
unfolding check_gk find_requests look
process_data_head m decision gk_method dh =
    let (done, dh') = check_gk gk_method dh in
    if done then some dh' else find_requests m dh' >>= (λ requests. look decision requests dh')
