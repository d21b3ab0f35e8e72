-- ===== src/StreamTable/Handler.antt =====
-- get_data.c, `tcp_stream_handler`: what each callback of libnids leaves in the bucket.
use school_project.Common.{
  ℕ, ◌≡◌, refl, Bool, true, false, not, Option, none, some, List, [], ◌∷◌, ◌==◌, if◌then◌else◌,
  ◌>>=◌, Bytes, length, arith, Bool-cases, inl, inr,
}
use school_project.StreamTable.{
  DataHead, Arrival, NidsState, just_est, timed_out, close, reset, blocked, data_ready, other_state,
  receive, has_addr, tcp_stream_handler, empty_head, is_stream,
}
use school_project.StreamTable.Buckets.{Waiting, stored, heads}
use school_project.StreamTable.Changes.{IsQuiet, IsTidy}
use school_project.StreamTable.Inserting.{waiting, add_waiting}
use school_project.StreamTable.Refinement.{insert-stored}
use school_project.StreamTable.Freeing.{free-stored}

-- A bucket as a map.
abbrev pub Streams : Type 0
Streams = ℕ → Option Waiting

abbrev pub without : ℕ → Streams → Streams
without a s b = if b == a then none else s b

abbrev pub with_segment : ℕ → Bytes → Bool → Streams → Streams
with_segment a ds from_client s b =
    if b == a then some (add_waiting (waiting (s a)) ds from_client) else s b

-- The data of an arrival: none if urgent data has come, else the client half's, if it has any.
abbrev pub with_data : Arrival → Streams → Streams
with_data e s =
    if not (e.server_urg == 0)
    then s
    else if not (e.client_urg == 0)
    then s
    else if not (length e.client_data == 0)
    then with_segment e.a_tcp.pointer e.client_data false s
    else with_segment e.a_tcp.pointer e.server_data true s

-- What an arrival does to the map; `known` tells whether a stream of the same addresses is there.
abbrev pub arrived : Arrival → Bool → Streams → Streams
arrived e known s = elim e.nids_state [
  | just_est ↦ if known then without e.a_tcp.pointer s else s
  | timed_out ↦ without e.a_tcp.pointer s
  | close ↦ without e.a_tcp.pointer s
  | reset ↦ without e.a_tcp.pointer s
  | blocked ↦ without e.a_tcp.pointer s
  | data_ready ↦ with_data e s
  | other_state ↦ s
]

abbrev pub in_bucket : List DataHead → Streams
in_bucket l b = stored b l

receive-stored :
    {gzip : DataHead → DataHead}
    → IsQuiet gzip
    → (e : Arrival) (l : List DataHead) → IsTidy l
    → ((b : ℕ) → stored b (receive gzip e l) ≡ with_data e (in_bucket l) b)
      × IsTidy (receive gzip e l)
unfolding receive
receive-stored quiet e l t = elim (Bool-cases (e.server_urg == 0)) [
  | inr x ↦ rw x ((λ b. refl), t)
  | inl x ↦ elim (Bool-cases (e.client_urg == 0)) [
    | inr y ↦ rw (x, y) ((λ b. refl), t)
    | inl y ↦ elim (Bool-cases (length e.client_data == 0)) [
      | inr z ↦ rw (x, y, z) (insert-stored quiet e.a_tcp e.client_data false l t)
      | inl z ↦ rw (x, y, z) (insert-stored quiet e.a_tcp e.server_data true l t)
    ]
  ]
]

module _ {gzip : DataHead → DataHead} (quiet : IsQuiet gzip) (e : Arrival) (l : List DataHead)
    (t : IsTidy l) where
  of_state :
      (n : NidsState)
      → e.nids_state ≡ n
      → (l' : List DataHead) × (tcp_stream_handler gzip e l ≡ some l')
        × ((b : ℕ) → stored b l' ≡ arrived e (has_addr e.a_tcp.addr l) (in_bucket l) b)
        × IsTidy l'
  unfolding tcp_stream_handler
  of_state just_est q = elim (Bool-cases (has_addr e.a_tcp.addr l)) [
    | inl x ↦ rw (q, x, tcp_stream_handler) (free-stored e.a_tcp.pointer l t)
    | inr x ↦ rw (q, x, tcp_stream_handler) (l, refl, (λ b. refl), t)
  ]
  of_state timed_out q = rw (q, tcp_stream_handler) (free-stored e.a_tcp.pointer l t)
  of_state close q = rw (q, tcp_stream_handler) (free-stored e.a_tcp.pointer l t)
  of_state reset q = rw (q, tcp_stream_handler) (free-stored e.a_tcp.pointer l t)
  of_state blocked q = rw (q, tcp_stream_handler) (free-stored e.a_tcp.pointer l t)
  of_state data_ready q =
      let (s, t') = receive-stored quiet e l t in
      rw (q, tcp_stream_handler) (receive gzip e l, refl, s, t')
  of_state other_state q = rw (q, tcp_stream_handler) (l, refl, (λ b. refl), t)

pub handler-stored :
    {gzip : DataHead → DataHead}
    → IsQuiet gzip
    → (e : Arrival) (l : List DataHead) → IsTidy l
    → (l' : List DataHead) × (tcp_stream_handler gzip e l ≡ some l')
      × ((b : ℕ) → stored b l' ≡ arrived e (has_addr e.a_tcp.addr l) (in_bucket l) b)
      × IsTidy l'
handler-stored quiet e l t = of_state quiet e l t e.nids_state refl

-- A new slot of the table.
pub empty-IsTidy : IsTidy (empty_head ∷ [])
unfolding empty_head heads is_stream
empty-IsTidy = record {
  slot = omega arith;
  each = (((λ e. (refl, refl)), refl), tt);
  once = λ a. omega arith;
}

unfoldable pub handle_all :
    (DataHead → DataHead) → List Arrival → List DataHead → Option (List DataHead)
unfolding tcp_stream_handler
handle_all gzip [] l = some l
handle_all gzip (e ∷ es) l = do l' ← tcp_stream_handler gzip e l; handle_all gzip es l'

all-IsTidy :
    {gzip : DataHead → DataHead}
    → IsQuiet gzip
    → (es : List Arrival) (l : List DataHead) → IsTidy l
    → (l' : List DataHead) × (handle_all gzip es l ≡ some l') × IsTidy l'
unfolding handle_all
all-IsTidy quiet [] l t = (l, refl, t)
all-IsTidy quiet (e ∷ es) l t =
    let (l₁, f, _, t₁) = handler-stored quiet e l t in
    let (l', f', t') = all-IsTidy quiet es l₁ t₁ in (l', rw f f', t')

-- After any sequence of callbacks on an empty slot of the table, none of which waits forever, each
-- stream has one head of the bucket at most, no head that is free has segments, and no lock is left
-- held, if `process_gzip_data` leaves the lists of segments, the streams and the locks alone.
pub handle_all-IsTidy :
    {gzip : DataHead → DataHead}
    → IsQuiet gzip
    → (es : List Arrival)
    → (l : List DataHead) × (handle_all gzip es (empty_head ∷ []) ≡ some l) × IsTidy l
handle_all-IsTidy quiet es = all-IsTidy quiet es (empty_head ∷ []) empty-IsTidy
