-- ===== src/StreamTable.antt =====
-- get_data.c: the table of streams: a bucket of heads, each with the segments that wait to be read.

pub mod Buckets
pub mod Finding
pub mod Changes
pub mod Inserting
pub mod Refinement
pub mod Freeing
pub mod Handler
mod Examples
use Prim.Native.Nat.{bit_xor}
use school_project.Common.{
  ℕ, zero, suc, ◌+◌, ◌%◌, Bool, true, false, not, ◌&&◌, ◌||◌, Option, none, some, List, [], ◌∷◌,
  ◌++◌, ◌==◌, if◌then◌else◌, ◌>>=◌, Bytes, length, get_elem?, set,
}

-- `struct tuple4` of libnids.
pub record Tuple4 : Type 0 where
  pub source : ℕ
  pub dest : ℕ
  pub saddr : ℕ
  pub daddr : ℕ

-- A `struct tcp_stream *` of libnids, and what get_data.c and loop.c read behind it.
pub record TcpStream : Type 0 where
  pub pointer : ℕ
  pub addr : Tuple4
  pub gk_state : ℕ

-- `struct data_segment` is its `data`, of `len` bytes. The lists from `first_up` to `last_up` and
-- from `first_down` to `last_down` are lists, empty when these pointers are NULL; `temp_up` and
-- `current_block` point at places in them. `has_buffers` tells whether `dist_buf` and `litter_buf`
-- are allocated, and `locked` whether `tcp_stream_lock_up` is held by a function that has returned.
pub record DataHead : Type 0 where
  pub a_tcp : Option TcpStream
  pub up : List Bytes
  pub temp_up : Option ℕ
  pub offset_up : ℕ
  pub down : List Bytes
  pub offset_down : ℕ
  pub current_block : Option ℕ
  pub has_buffers : Bool
  pub dist : ℕ
  pub lit : ℕ
  pub locked : Bool

-- A head that `memset` has set to 0.
unfoldable pub empty_head : DataHead
empty_head = record {
  a_tcp = none;
  up = [];
  temp_up = none;
  offset_up = 0;
  down = [];
  offset_down = 0;
  current_block = none;
  has_buffers = false;
  dist = 0;
  lit = 0;
  locked = false;
}

-- p_dh->a_tcp == a_tcp
unfoldable pub is_stream : ℕ → DataHead → Bool
is_stream a h = elim h.a_tcp [ none ↦ false | some t ↦ t.pointer == a ]

-- p_dh->a_tcp == NULL
unfoldable pub is_free : DataHead → Bool
is_free h = elim h.a_tcp [ none ↦ true | some t ↦ false ]

-- The loop of `find_stream`, at the `i`th head; `p_null` is the last free head before it.
unfoldable pub find_loop : ℕ → ℕ → Option ℕ → DataHead → List DataHead → ℕ
unfolding is_stream is_free
find_loop a i p_null h [] = if is_stream a h then i else elim p_null [ none ↦ i | some j ↦ j ]
find_loop a i p_null h (n ∷ next) =
    let found = find_loop a (i + 1) (if is_free h then some i else p_null) n next in
    if is_stream a h then i else found

-- `find_stream` in a bucket: the place of the head. A bucket has its slot in the table at least.
unfoldable pub find_stream : ℕ → List DataHead → ℕ
unfolding find_loop
find_stream a [] = 0
find_stream a (h ∷ next) = find_loop a 0 none h next

-- A segment for the stream that the head belongs to; `gzip` is `process_gzip_data`.
unfoldable pub append_segment : (DataHead → DataHead) → Bytes → Bool → DataHead → DataHead
append_segment gzip ds from_client h =
    if from_client
    then record h { up = h.up ++ ds ∷ [] }
    else gzip (record h { down = h.down ++ ds ∷ [] })

-- A free head is taken for the stream.
unfoldable pub reuse_head : (DataHead → DataHead) → TcpStream → Bytes → Bool → DataHead → DataHead
reuse_head gzip a ds from_client h =
    let h' = record h {
      a_tcp = some a;
      temp_up = none;
      offset_up = 0;
      current_block = none;
      has_buffers = true;
      dist = 0;
      lit = 0;
    } in
    if from_client then record h' { up = ds ∷ [] } else gzip (record h' { down = ds ∷ [] })

-- A new head for the stream.
unfoldable pub new_head : TcpStream → Bytes → Bool → DataHead
unfolding empty_head
new_head a ds from_client =
    if from_client
    then record empty_head { a_tcp = some a; up = ds ∷ [] }
    else record empty_head { a_tcp = some a; down = ds ∷ [] }

-- What happens to the head that the new one is hung behind: it gets the buffers, and it is the one
-- that `process_gzip_data` is called with.
unfoldable pub chain_head : (DataHead → DataHead) → Bool → DataHead → DataHead
chain_head gzip from_client h =
    if from_client then record h { has_buffers = true } else gzip (record h { has_buffers = true })

unfoldable pub insert_new_data_segment :
    (DataHead → DataHead) → TcpStream → Bytes → Bool → List DataHead → List DataHead
unfolding find_stream is_stream is_free append_segment reuse_head new_head chain_head
insert_new_data_segment gzip a ds from_client l =
    let i = find_stream a.pointer l in
    elim (get_elem? l i) [
      | none ↦ l
      | some h ↦
          if is_stream a.pointer h
          then set l i (append_segment gzip ds from_client h)
          else if is_free h
          then set l i (reuse_head gzip a ds from_client h)
          else set l i (chain_head gzip from_client h) ++ new_head a ds from_client ∷ []
    ]

-- What `free_data_stream` leaves of the head.
unfoldable pub clear_head : DataHead → DataHead
clear_head h = record h { a_tcp = none; up = []; offset_up = 0; down = []; offset_down = 0 }

-- `none` is the wait for a lock that is never given back, or a read through NULL.
unfoldable pub free_data_stream : ℕ → List DataHead → Option (List DataHead)
unfolding find_stream is_stream clear_head
free_data_stream a l =
    let i = find_stream a l in
    elim (get_elem? l i) [
      | none ↦ none
      | some h ↦
          if is_stream a h
          then (if h.locked then none else some (set l i (clear_head h)))
          else some l
    ]

unfoldable pub tuple4_equal : Tuple4 → Tuple4 → Bool
tuple4_equal s t =
    s.source == t.source && s.dest == t.dest && s.saddr == t.saddr && s.daddr == t.daddr

-- The `do` loop of the handler: some head has a stream of the same addresses.
unfoldable pub has_addr : Tuple4 → List DataHead → Bool
unfolding tuple4_equal
has_addr t [] = false
has_addr t (h ∷ l) = elim h.a_tcp [ none ↦ false | some s ↦ tuple4_equal s.addr t ] || has_addr t l

pub data NidsState : Type 0 where
  just_est : NidsState
  timed_out : NidsState
  close : NidsState
  reset : NidsState
  blocked : NidsState
  data_ready : NidsState
  other_state : NidsState

-- What the handler reads of the `tcp_stream`: `client_data` and `server_data` are the `count_new`
-- bytes at `data` of either half.
pub record Arrival : Type 0 where
  pub a_tcp : TcpStream
  pub nids_state : NidsState
  pub server_urg : ℕ
  pub client_urg : ℕ
  pub client_data : Bytes
  pub server_data : Bytes

-- The branch NIDS_DATA, with `malloc` taken to succeed.
unfoldable pub receive : (DataHead → DataHead) → Arrival → List DataHead → List DataHead
unfolding insert_new_data_segment
receive gzip e l =
    if not (e.server_urg == 0)
    then l
    else if not (e.client_urg == 0)
    then l
    else if not (length e.client_data == 0)
    then insert_new_data_segment gzip e.a_tcp e.client_data false l
    else insert_new_data_segment gzip e.a_tcp e.server_data true l

-- `tcp_stream_handler`, in the bucket of the stream.
unfoldable pub tcp_stream_handler :
    (DataHead → DataHead) → Arrival → List DataHead → Option (List DataHead)
unfolding receive free_data_stream has_addr
tcp_stream_handler gzip e l = elim e.nids_state [
  | just_est ↦ if has_addr e.a_tcp.addr l then free_data_stream e.a_tcp.pointer l else some l
  | timed_out ↦ free_data_stream e.a_tcp.pointer l
  | close ↦ free_data_stream e.a_tcp.pointer l
  | reset ↦ free_data_stream e.a_tcp.pointer l
  | blocked ↦ free_data_stream e.a_tcp.pointer l
  | data_ready ↦ some (receive gzip e l)
  | other_state ↦ some l
]

-- `mk_hash_index`; `mkhash` is the function of libnids.
unfoldable pub mk_hash_index : (ℕ → ℕ → ℕ → ℕ → ℕ) → ℕ → Tuple4 → ℕ
mk_hash_index mkhash tcp_stream_table_size addr =
    let hash1 = mkhash addr.saddr addr.source addr.daddr addr.dest in
    let hash2 = mkhash addr.daddr addr.dest addr.saddr addr.source in
    bit_xor (hash1 % tcp_stream_table_size) (hash2 % tcp_stream_table_size) % tcp_stream_table_size

-- `data_cache_table`, with the chain of each slot.
abbrev pub DataCacheTable : Type 0
DataCacheTable = ℕ → List DataHead

-- `tcp_stream_handler` on the table: the bucket is the one of the stream's addresses.
unfoldable pub handle_in_table :
    (ℕ → ℕ → ℕ → ℕ → ℕ)
    → ℕ
    → (DataHead → DataHead)
    → Arrival
    → DataCacheTable
    → Option DataCacheTable
unfolding mk_hash_index tcp_stream_handler
handle_in_table mkhash tcp_stream_table_size gzip e table =
    let i = mk_hash_index mkhash tcp_stream_table_size e.a_tcp.addr in
    do l ← tcp_stream_handler gzip e (table i); some (λ j. if j == i then l else table j)
