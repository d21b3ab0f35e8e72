-- ===== src/StreamTable/Inserting.antt =====
-- get_data.c, `insert_new_data_segment`: a segment is added for its stream, and for no other.
use school_project.Common.{
  ℕ, ◌≡◌, refl, ◌∙◌, Bool, true, false, Option, none, some, [], ◌∷◌, ◌++◌, ◌==◌, if◌then◌else◌,
  Bytes, arith,
}
use school_project.StreamTable.{
  DataHead, TcpStream, is_stream, is_free, append_segment, reuse_head, new_head, chain_head,
  empty_head,
}
use school_project.StreamTable.Buckets.{Waiting, hit, hit-true}
use school_project.StreamTable.Changes.{IsQuiet, IsFine, hit-same}

abbrev pub waiting : Option Waiting → Waiting
waiting none = ([], [])
waiting (some s) = s

-- One more segment from the client or from the server.
abbrev pub add_waiting : Waiting → Bytes → Bool → Waiting
add_waiting (up, down) ds from_client =
    if from_client then (up ++ ds ∷ [], down) else (up, down ++ ds ∷ [])

module _ {gzip : DataHead → DataHead} (quiet : IsQuiet gzip) (a : TcpStream) (ds : Bytes) where
  -- A head that a segment has been appended to.
  pub append-same :
      (c : Bool) (x : DataHead) (b : ℕ) → is_stream b (append_segment gzip ds c x) ≡ is_stream b x
  unfolding append_segment is_stream
  append-same true x b = refl
  append-same false x b = quiet.same b (record x { down = x.down ++ ds ∷ [] })

  pub append-hit :
      (c : Bool) (x : DataHead) (b : ℕ)
      → is_stream b x ≡ true
      → hit b (append_segment gzip ds c x) ≡ some (add_waiting (x.up, x.down) ds c)
  unfolding append_segment
  append-hit true x b e = hit-true b (record x { up = x.up ++ ds ∷ [] }) (append-same true x b ∙ e)
  append-hit false x b e =
      let x' : DataHead = record x { down = x.down ++ ds ∷ [] } in
      hit-true b (gzip x') (append-same false x b ∙ e) ∙ rw (quiet.up x', quiet.down x') refl

  pub append-IsFine :
      (c : Bool) (x : DataHead) → is_free x ≡ false → IsFine x → IsFine (append_segment gzip ds c x)
  unfolding append_segment is_free
  append-IsFine true x e (f, k) = ((λ g. absurd (cc (g, e))), k)
  append-IsFine false x e (f, k) =
      let x' : DataHead = record x { down = x.down ++ ds ∷ [] } in
      ((λ g. absurd (cc (g, quiet.free x', e))), quiet.locked x' ∙ k)

  -- A free head that is taken.
  pub reuse-same :
      (c : Bool) (x : DataHead) (b : ℕ) → is_stream b (reuse_head gzip a ds c x) ≡ (a.pointer == b)
  unfolding reuse_head is_stream
  reuse-same true x b = refl
  reuse-same false x b = quiet.same b _

  pub reuse-hit :
      (c : Bool) (x : DataHead)
      → (x.up ≡ []) × (x.down ≡ [])
      → hit a.pointer (reuse_head gzip a ds c x) ≡ some (add_waiting ([], []) ds c)
  unfolding reuse_head
  reuse-hit true x (u, d) =
      hit-true a.pointer (reuse_head gzip a ds true x) (reuse-same true x a.pointer ∙ ground arith)
      ∙ rw d refl
  reuse-hit false x (u, d) =
      hit-true a.pointer (reuse_head gzip a ds false x)
        (reuse-same false x a.pointer ∙ ground arith)
      ∙ (rw (quiet.up _, quiet.down _, u) refl)

  pub reuse-IsFine : (c : Bool) (x : DataHead) → IsFine x → IsFine (reuse_head gzip a ds c x)
  unfolding reuse_head is_free
  reuse-IsFine true x (f, k) = ((λ g. absurd (cc g)), k)
  reuse-IsFine false x (f, k) = ((λ g. absurd (cc (g, quiet.free _))), quiet.locked _ ∙ k)

  -- The new head, and the one before it.
  pub new-same : (c : Bool) (b : ℕ) → is_stream b (new_head a ds c) ≡ (a.pointer == b)
  unfolding new_head is_stream
  new-same true b = refl
  new-same false b = refl

  pub new-hit : (c : Bool) → hit a.pointer (new_head a ds c) ≡ some (add_waiting ([], []) ds c)
  unfolding new_head empty_head
  new-hit true = hit-true a.pointer (new_head a ds true) (new-same true a.pointer ∙ ground arith)
  new-hit false = hit-true a.pointer (new_head a ds false) (new-same false a.pointer ∙ ground arith)

  pub new-IsFine : (c : Bool) → IsFine (new_head a ds c)
  unfolding new_head empty_head is_free
  new-IsFine true = ((λ g. absurd (cc g)), refl)
  new-IsFine false = ((λ g. absurd (cc g)), refl)

  pub chain-same :
      (c : Bool) (x : DataHead) (b : ℕ) → is_stream b (chain_head gzip c x) ≡ is_stream b x
  unfolding chain_head is_stream
  chain-same true x b = refl
  chain-same false x b = quiet.same b (record x { has_buffers = true })

  pub chain-hit : (c : Bool) (x : DataHead) (b : ℕ) → hit b (chain_head gzip c x) ≡ hit b x
  unfolding chain_head
  chain-hit true x b =
      hit-same b x (record x { has_buffers = true }) (chain-same true x b) refl refl
  chain-hit false x b =
      let x' : DataHead = record x { has_buffers = true } in
      hit-same b x (gzip x') (chain-same false x b) (quiet.up x') (quiet.down x')

  pub chain-IsFine :
      (c : Bool) (x : DataHead) → is_free x ≡ false → IsFine x → IsFine (chain_head gzip c x)
  unfolding chain_head is_free
  chain-IsFine true x e (f, k) = ((λ g. absurd (cc (g, e))), k)
  chain-IsFine false x e (f, k) =
      let x' : DataHead = record x { has_buffers = true } in
      ((λ g. absurd (cc (g, quiet.free x', e))), quiet.locked x' ∙ k)
