-- ===== src/StreamTable/Examples.antt =====
-- get_data.c: runs, and witnesses.
use school_project.Common.{
  ℕ, ◌+◌, ◌≡◌, refl, true, some, List, [], ◌∷◌, ◌==◌, if◌then◌else◌, ◌>>=◌, Bytes, codes,
}
use school_project.StreamTable.{
  DataHead, TcpStream, Arrival, close, data_ready, empty_head, is_stream, is_free,
  insert_new_data_segment, tcp_stream_handler,
}
use school_project.StreamTable.Buckets.{stored}
use school_project.StreamTable.Changes.{IsQuiet, IsTidy}
use school_project.StreamTable.Inserting.{waiting, add_waiting}
use school_project.StreamTable.Refinement.{insert-stored}
use school_project.StreamTable.Handler.{handle_all, handle_all-IsTidy, empty-IsTidy}

-- A decompression that counts its calls.
abbrev counted : DataHead → DataHead
counted h = record h { lit = h.lit + 1 }

counted-IsQuiet : IsQuiet counted
unfolding is_stream is_free
counted-IsQuiet = record {
  same = λ a h. refl;
  free = λ h. refl;
  up = λ h. refl;
  down = λ h. refl;
  locked = λ h. refl;
}

abbrev stream : ℕ → TcpStream
stream p = record {
  pointer = p;
  addr = record { source = p; dest = 80; saddr = 1; daddr = 2 };
  gk_state = 0;
}

abbrev sent : ℕ → Bytes → Arrival
sent p ds = record {
  a_tcp = stream p;
  nids_state = data_ready;
  server_urg = 0;
  client_urg = 0;
  client_data = [];
  server_data = ds;
}

abbrev answered : ℕ → Bytes → Arrival
answered p ds = record (sent p []) { client_data = ds }

abbrev ended : ℕ → Arrival
ended p = record (sent p []) { nids_state = close }

abbrev four_arrivals : List Arrival
four_arrivals = sent 7 (codes "GET") ∷ sent 8 (codes "PUT") ∷ ended 7 ∷ answered 8 (codes "OK") ∷ []

four_stored :
    (handle_all counted four_arrivals (empty_head ∷ []) >>= stored 8)
    ≡ some (codes "PUT" ∷ [], codes "OK" ∷ [])
unfolding handle_all tcp_stream_handler empty_head stored
four_stored = refl

insert-stored_example :
    ((b : ℕ)
      → stored b (insert_new_data_segment counted (stream 7) (codes "GET") true (empty_head ∷ []))
        ≡ (if b == 7
            then some (add_waiting (waiting (stored 7 (empty_head ∷ []))) (codes "GET") true)
            else stored b (empty_head ∷ [])))
    × IsTidy (insert_new_data_segment counted (stream 7) (codes "GET") true (empty_head ∷ []))
insert-stored_example =
    insert-stored counted-IsQuiet (stream 7) (codes "GET") true (empty_head ∷ []) empty-IsTidy

handle_all-IsTidy_example :
    (l : List DataHead) × (handle_all counted four_arrivals (empty_head ∷ []) ≡ some l) × IsTidy l
handle_all-IsTidy_example = handle_all-IsTidy counted-IsQuiet four_arrivals
