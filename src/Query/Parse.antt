-- ===== src/Query/Parse.antt =====
-- query_table.c, `parse`: it reads back what is written with blanks round its operators.
use mathlib.Core.Path.{subst}
use mathlib.Core.List.{append_assoc, append-nil}
use school_project.Common.{
  ℕ, zero, suc, ◌+◌, ◌≤◌, ◌<◌, ◌≡◌, ◌≢◌, refl, ap, ◌∙◌, Bool, true, false, some, not, ◌&&◌, List,
  [], ◌∷◌, ◌++◌, map, arith, ◌==◌, ◌>>=◌, Bytes, length, length-append, replicate,
}
use school_project.Query.{
  QueryExpression, new_query_expression, is_logic, still_has_logic, skip_blanks, up_to_blank,
  push_word, push_op, parse_loop, set_full_text, parse_expression,
}

-- Neither blanks nor operators.
abbrev pub IsWord : Bytes → Type 0
IsWord [] = Unit
IsWord (c ∷ w) = (c ≢ b' ') × (is_logic c ≡ false) × IsWord w

-- No operators.
abbrev IsPlain : Bytes → Type 0
IsPlain [] = Unit
IsPlain (c ∷ w) = (is_logic c ≡ false) × IsPlain w

abbrev pub blanks : ℕ → Bytes
blanks n = replicate n b' '

-- An operator between blanks, and the word behind it.
pub record Term : Type 0 where
  pub gap : ℕ
  pub op : ℕ
  pub lead : ℕ
  pub word : Bytes

abbrev pub IsTerm : Term → Type 0
IsTerm t = (is_logic t.op ≡ true) × IsWord t.word × (0 < length t.word) × (length t.word < 256)

abbrev pub AllTerms : List Term → Type 0
AllTerms [] = Unit
AllTerms (t ∷ ts) = IsTerm t × AllTerms ts

-- The text of a query: a word and the terms behind it.
abbrev pub render : Bytes → List Term → Bytes
render w [] = w
render w (t ∷ ts) = w ++ (blanks t.gap ++ (t.op ∷ (blanks t.lead ++ render t.word ts)))

up_to_blank-word : (w : Bytes) (n : ℕ) → IsWord w → up_to_blank (w ++ blanks n) ≡ w
unfolding up_to_blank
up_to_blank-word [] zero h = refl
up_to_blank-word [] (suc n) h = refl
up_to_blank-word (c ∷ w) n h = ground (arith, up_to_blank-word w n h.2)

skip_blanks-word : (w : Bytes) (n : ℕ) → IsWord w → up_to_blank (skip_blanks (w ++ blanks n)) ≡ w
unfolding skip_blanks
skip_blanks-word [] zero h = up_to_blank-word [] 0 h
skip_blanks-word [] (suc n) h = skip_blanks-word [] n h
skip_blanks-word (c ∷ w) n h = ground (arith, up_to_blank-word (c ∷ w) n h)

-- The word between two runs of blanks.
trim-word :
    (m n : ℕ) (w : Bytes) → IsWord w → up_to_blank (skip_blanks (blanks m ++ (w ++ blanks n))) ≡ w
unfolding skip_blanks
trim-word zero n w h = skip_blanks-word w n h
trim-word (suc m) n w h = trim-word m n w h

has_logic-append : (u s : Bytes) → still_has_logic s ≡ true → still_has_logic (u ++ s) ≡ true
unfolding still_has_logic
has_logic-append [] s h = h
has_logic-append (c ∷ u) s h = ground (arith, has_logic-append u s h)

has_logic-plain : (u : Bytes) → IsPlain u → still_has_logic u ≡ false
unfolding still_has_logic
has_logic-plain [] h = refl
has_logic-plain (c ∷ u) h = ground (arith, has_logic-plain u h.1)

IsPlain-append : (u v : Bytes) → IsPlain u → IsPlain v → IsPlain (u ++ v)
IsPlain-append [] v h k = k
IsPlain-append (c ∷ u) v h k = (h.0, IsPlain-append u v h.1 k)

IsPlain-blanks : (n : ℕ) → IsPlain (blanks n)
unfolding is_logic
IsPlain-blanks zero = tt
IsPlain-blanks (suc n) = (refl, IsPlain-blanks n)

IsPlain-word : (w : Bytes) → IsWord w → IsPlain w
IsPlain-word [] h = tt
IsPlain-word (c ∷ w) h = (h.1, IsPlain-word w h.2)

-- Up to the next operator, the loop only moves on.
parse_loop-advance :
    (seg u s : Bytes) (e : QueryExpression)
    → IsPlain u
    → still_has_logic s ≡ true
    → parse_loop seg (u ++ s) e ≡ parse_loop (seg ++ u) s e
unfolding parse_loop
parse_loop-advance seg [] s e h k = rw append-nil
parse_loop-advance seg (c ∷ u) s e h k =
    let more = has_logic-append seg (c ∷ u ++ s) (has_logic-append (c ∷ u) s k) in
    rw (more, parse_loop)
      (rw (h.0, parse_loop)
        (parse_loop-advance (seg ++ c ∷ []) u s e h.1 k
          ∙ ap (λ x. parse_loop x s e) (append_assoc seg (c ∷ []) u)))

has_logic-here : (c : ℕ) (s : Bytes) → is_logic c ≡ true → still_has_logic (c ∷ s) ≡ true
unfolding still_has_logic
has_logic-here c s h = ground arith

parse_loop-op :
    (seg s : Bytes) (c : ℕ) (e : QueryExpression)
    → is_logic c ≡ true
    → parse_loop seg (c ∷ s) e ≡ (
        push_op c e >>= λ e₁.
        push_word (up_to_blank (skip_blanks seg)) e₁ >>= λ e₂. parse_loop [] s e₂)
unfolding parse_loop
parse_loop-op seg s c e h =
    let more : still_has_logic (seg ++ c ∷ s) ≡ true =
      has_logic-append seg (c ∷ s) (has_logic-here c s h) in
    rw (more, parse_loop) (rw h)

parse_loop-last :
    (l : Bytes) (e : QueryExpression)
    → 0 < length l
    → IsPlain l
    → parse_loop [] l e ≡ push_word (up_to_blank (skip_blanks l)) e
unfolding parse_loop
parse_loop-last [] e n h = elim n [ ]
parse_loop-last (c ∷ s) e n h = rw (has_logic-plain (c ∷ s) h, parse_loop)

abbrev pub with_parts : QueryExpression → List Bytes → Bytes → QueryExpression
with_parts e words ops = record e { query = e.query ++ words; logic_ops = e.logic_ops ++ ops }

abbrev pub words : List Term → List Bytes
words ts = map (λ t. t.word) ts

abbrev pub ops : List Term → Bytes
ops ts = map (λ t. t.op) ts

push_word_lem :
    (w : Bytes) (e : QueryExpression)
    → length e.query < 4
    → length w < 256
    → push_word w e ≡ some (record e { query = e.query ++ w ∷ [] })
unfolding push_word
push_word_lem w e h k = ground arith

push_op_lem :
    (c : ℕ) (e : QueryExpression)
    → length e.logic_ops < 3
    → push_op c e ≡ some (record e { logic_ops = e.logic_ops ++ c ∷ [] })
unfolding push_op
push_op_lem c e h = ground arith

-- What the loop does on a word and its terms, after any blanks.
parse_loop-render :
    (m : ℕ) (w : Bytes) (ts : List Term) (e : QueryExpression)
    → length e.query + length ts < 4
    → length e.logic_ops + length ts ≤ 3
    → IsWord w
    → 0 < length w
    → length w < 256
    → AllTerms ts
    → parse_loop [] (blanks m ++ render w ts) e ≡ some (with_parts e (w ∷ words ts) (ops ts))
parse_loop-render m w [] e q o h n k v =
    let trimmed : up_to_blank (skip_blanks (blanks m ++ w)) ≡ w =
      subst (λ x. up_to_blank (skip_blanks (blanks m ++ x)) ≡ w) (append-nil w)
        (trim-word m 0 w h) in
    rw
      (parse_loop-last (blanks m ++ w) e (omega (arith, length-append (blanks m) w))
        (IsPlain-append (blanks m) w (IsPlain-blanks m) (IsPlain-word w h)))
      (rw trimmed (push_word_lem w e (omega arith) k ∙ rw append-nil))
parse_loop-render m w (t ∷ ts) e q o h n k v =
    let rest = blanks t.lead ++ render t.word ts in
    let front = blanks m ++ (w ++ blanks t.gap) in
    let whole : blanks m ++ (w ++ (blanks t.gap ++ (t.op ∷ rest))) ≡ front ++ (t.op ∷ rest) =
      simp append_assoc in
    let e₁ = record e { logic_ops = e.logic_ops ++ t.op ∷ [] } in
    let e₂ = record e₁ { query = e.query ++ w ∷ [] } in
    rw whole (
      parse_loop-advance [] front (t.op ∷ rest) e
        (IsPlain-append (blanks m) (w ++ blanks t.gap) (IsPlain-blanks m)
          (IsPlain-append w (blanks t.gap) (IsPlain-word w h) (IsPlain-blanks t.gap)))
        (has_logic-here t.op rest v.0.0)
      ∙ (parse_loop-op front rest t.op e v.0.0
          ∙ rw (push_op_lem t.op e (omega arith)) (
              rw (trim-word m t.gap w h) (
                rw (push_word_lem w e₁ (omega arith) k) (
                  parse_loop-render t.lead t.word ts e₂
                    (omega (arith, length-append e.query (w ∷ [])))
                    (omega (arith, length-append e.logic_ops (t.op ∷ []))) v.0.1 v.0.2 v.0.3 v.1
                  ∙ simp append_assoc)))))

length-render : (w : Bytes) (ts : List Term) → length w ≤ length (render w ts)
length-render w [] = omega arith
length-render w (t ∷ ts) =
    omega (arith, length-append w (blanks t.gap ++ (t.op ∷ (blanks t.lead ++ render t.word ts))))

-- Words without blanks and operators, with operators among "#" and "&" between them and any number
-- of blanks round those, are read back, if there are at most four words and the whole text fits
-- into `full_text`.
pub parse-render :
    (w : Bytes) (ts : List Term)
    → length ts ≤ 3
    → length (render w ts) < 256
    → IsWord w
    → 0 < length w
    → AllTerms ts
    → parse_expression (render w ts)
      ≡ some (record { logic_ops = ops ts; query = w ∷ words ts; tf = []; full_text = render w ts })
unfolding parse_expression set_full_text
parse-render w ts few fits h n v =
    let full = record new_query_expression { full_text = render w ts } in
    let longer = length-render w ts in
    let stored : set_full_text (render w ts) new_query_expression ≡ some full = ground arith in
    rw stored (parse_loop-render 0 w ts full (omega arith) (omega arith) h n (omega arith) v)

-- The test of `IsWord`, for texts at hand.
unfoldable pub is_word : Bytes → Bool
is_word [] = true
is_word (c ∷ w) = not (c == b' ') && (not (is_logic c) && is_word w)

pub IsWord-of_test : (w : Bytes) → is_word w ≡ true → IsWord w
unfolding is_word
IsWord-of_test [] h = tt
IsWord-of_test (c ∷ w) h = (ground arith, ground arith, IsWord-of_test w (ground arith))
