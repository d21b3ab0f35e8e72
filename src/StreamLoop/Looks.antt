-- ===== src/StreamLoop/Looks.antt =====
-- loop.c, `process_data_head`: when a look of a thread returns, and what it leaves of the head.
use mathlib.Core.List.{Memᴰ}
use mathlib.Core.Logic.{⊎_elim}
use school_project.Common.{
  ℕ, ◌≡◌, ◌≢◌, ◌⊎◌, refl, sym, ◌∙◌, true, false, Option, none, some, List, [], ◌∷◌, ◌++◌, Bytes,
  length, Bool-cases, Option-cases, inl, inr, ltb, drop,
}
use school_project.Decision.{Decision, block}
use school_project.StringMatcher.{Matchers, get_request_number}
use school_project.StreamTable.{DataHead}
use school_project.StreamLoop.{
  buffer, check_gk, get_buffer, copy_segments, flat, get_request, find_requests, process_data_head,
}
use school_project.StreamLoop.Heads.{IsPointed, Keeps, check_gk-Checked}

-- A request that is blocked.
abbrev pub HasBlocked : (Bytes → Decision) → List Bytes → Type 0
HasBlocked decision requests = (r : Bytes) × Memᴰ r requests × (decision r ≡ block)

-- What a look gives: a head, if there was nothing to do or no request is blocked; else a fault.
abbrev pub Looked : Matchers → (Bytes → Decision) → ℕ → DataHead → Option DataHead → Type 0
Looked m decision gk_method dh result =
    let (done, dh') = check_gk gk_method dh in
    ((h : DataHead) × (result ≡ some h)
      × Keeps dh h
      × ((done ≡ true)
          ⊎ ((rs : List Bytes) × (find_requests m dh' ≡ some rs)
              × ((r : Bytes) → Memᴰ r rs → decision r ≢ block))))
    ⊎ ((result ≡ none)
        × (done ≡ false)
        × ((find_requests m dh' ≡ none)
            ⊎ ((rs : List Bytes) × (find_requests m dh' ≡ some rs) × HasBlocked decision rs)))

copy_segments-cases :
    (offset : ℕ) (l : List Bytes)
    → (copy_segments offset l ≡ none)
      ⊎ ((bytes : Bytes) × (copy_segments offset l ≡ some (buffer bytes)))
unfolding copy_segments flat
copy_segments-cases offset [] = inl refl
copy_segments-cases offset (ds ∷ l) = elim (Bool-cases (ltb (length ds) offset)) [
  | inl e ↦ inl (rw e refl)
  | inr e ↦ inr (drop offset ds ++ flat l, rw e refl)
]

-- A head with a stream whose lock is free has a buffer, or the copy faults.
get_buffer-live :
    (dh : DataHead)
    → dh.locked ≡ false
    → dh.a_tcp ≢ none
    → (get_buffer dh ≡ none) ⊎ ((bytes : Bytes) × (get_buffer dh ≡ some (buffer bytes)))
unfolding get_buffer
get_buffer-live dh free live = elim (Option-cases dh.a_tcp) [
  | inl e ↦ absurd (live e)
  | inr (t, e) ↦ elim (Option-cases dh.temp_up) [
    | inl f ↦ inr ([], simp (free, e, f, get_buffer))
    | inr (i, f) ↦
        let same : get_buffer dh ≡ copy_segments dh.offset_up (drop i dh.up) =
          simp (free, e, f, get_buffer) in
        ⊎_elim (λ x. inl (same ∙ x))
          (λ (y : (bytes : Bytes) × (copy_segments dh.offset_up (drop i dh.up)
                ≡ some (buffer bytes))).
            inr (y.0, same ∙ y.1))
          (copy_segments-cases dh.offset_up (drop i dh.up))
  ]
]

-- While R is NULL, one look of a thread at a head whose lock is free and whose mark points at a waiting
-- segment returns if there is nothing to do, and else faults before any request is found.
pub process_data_head-null :
    (m : Matchers) (decision : Bytes → Decision) (gk_method : ℕ) (dh : DataHead)
    → m.requests ≡ none
    → dh.locked ≡ false
    → IsPointed dh
    → ((check_gk gk_method dh).0 ≡ true
        → process_data_head m decision gk_method dh ≡ some (check_gk gk_method dh).1)
      × ((check_gk gk_method dh).0 ≡ false → process_data_head m decision gk_method dh ≡ none)
unfolding process_data_head find_requests get_request get_request_number
process_data_head-null m decision gk_method dh null free pointed =
    let r = check_gk gk_method dh in
    let ((free', pointed', up, down), same, live) = check_gk-Checked gk_method dh free pointed in
    (
      λ x. rw (x, process_data_head) refl,
      λ x. elim (get_buffer-live r.1 free' (λ e. live x (sym same ∙ e))) [
        | inl y ↦ rw (x, y, process_data_head, find_requests) refl
        | inr (bytes, y) ↦ rw (x, y, null, process_data_head, find_requests, get_request) refl
      ],
    )
