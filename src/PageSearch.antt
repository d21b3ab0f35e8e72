-- ===== src/PageSearch.antt =====
-- acsm.c: the search of a compressed page: `acch` reads the tokens of the decompression and skips
-- what a repetition has shown before.
pub mod Suffixes
pub mod Moves
pub mod Copies
pub mod Loops
pub mod Rounds
pub mod Repetitions
pub mod Sound
pub mod Literals
mod Examples
use school_project.Common.{
  ℕ, zero, suc, ◌+◌, ◌-◌, Bool, true, false, not, ◌||◌, Option, none, some, List, [], ◌∷◌, ◌++◌,
  ◌==◌, ltb, leb, if◌then◌else◌, ◌>>=◌, Bytes, length, get_elem?,
}
use school_project.Acsm.{StateTable}
use school_project.PageAcsm.{PageAcsm}

-- WSIZE
abbrev pub wsize : ℕ
wsize = 524288

-- CDepth
abbrev pub c_depth : ℕ
c_depth = 4

abbrev pub keyword_size : ℕ
keyword_size = 1024

-- l[i] and dbuf[i]: a byte if the second is 0, else the repetition of what stood so far back.
pub record Token : Type 0 where
  pub l : ℕ
  pub dist : ℕ

-- The loop of `fsm` over the match list: the last pattern that is copied to `keyword` stays.
unfoldable pub copy_keywords : Bytes → List Bytes → Option Bytes
copy_keywords keyword [] = some keyword
copy_keywords keyword (p ∷ mlist) =
    let rest = copy_keywords p mlist in if ltb (length p) keyword_size then rest else none

-- The three numbers of a status: 0 for a match, 1 for a state of depth CDepth, 2 for another.
abbrev pub match_status : ℕ
match_status = 0

-- What `acch` keeps: the window and the status of each of its places, which are global arrays, how
-- many places are filled, the state of the automaton and `keyword`.
pub record Scan : Type 0 where
  pub win : ℕ → ℕ
  pub st : ℕ → ℕ
  pub w : ℕ
  pub state : ℕ
  pub tag : Bool
  pub keyword : Bytes

-- What `fsm` returns: the state, `*out` and `keyword`.
pub record Moved : Type 0 where
  pub state : ℕ
  pub out : Bool
  pub keyword : Bytes

unfoldable pub is_empty : List Bytes → Bool
is_empty [] = true
is_empty (p ∷ ps) = false

unfoldable pub fsm : StateTable → ℕ → ℕ → Bytes → Option Moved
unfolding copy_keywords is_empty
fsm t state e keyword = do
  s ← (t state).next_state e
  k ← copy_keywords keyword (t s).match_list
  some (record { state = s; out = not (is_empty (t s).match_list); keyword = k })

-- The status that `scanAC` writes.
unfoldable pub scan_status : (ℕ → ℕ) → Moved → ℕ
scan_status dept m = if m.out then match_status else if leb c_depth (dept m.state) then 1 else 2

-- A table that is compiled, and the depths of its states.
pub record Compiled : Type 0 where
  pub table : StateTable
  pub dept : ℕ → ℕ

-- One more byte: the end of the search by a full window, with what `keyword` has been set to if there
-- was a match all the same, or the scan and whether it stops here.
pub data Put : Type 0 where
  full : Option Bytes → Put
  put : Scan → Bool → Put

abbrev pub set_at : (ℕ → ℕ) → ℕ → ℕ → ℕ → ℕ
set_at a i v j = if j == i then v else a j

abbrev keyword_set : Bool → Bytes → Option Bytes
keyword_set tag keyword = if tag then some keyword else none

-- The branch for a single byte `c`, once `scanAC` has moved; it is not kept if it ends a match.
unfoldable pub keep_literal : Compiled → ℕ → Scan → Moved → Option Put
unfolding scan_status
keep_literal a c s m =
    let status = scan_status a.dept m in
    let s' = record s { win = set_at s.win s.w c; state = m.state; keyword = m.keyword } in
    if leb wsize s.w
    then none
    else if status == match_status
    then some (put (record s' { tag = true }) true)
    else if leb (wsize - 1) s.w
    then some (full (keyword_set s.tag m.keyword))
    else some (put (record s' { st = set_at s.st s.w status; w = s.w + 1 }) false)

unfoldable pub put_literal : Compiled → ℕ → Scan → Option Put
unfolding fsm keep_literal
put_literal a c s = do m ← fsm a.table s.state c s.keyword; keep_literal a c s m

-- The copy of one byte, once `scanAC` has moved.
unfoldable pub keep_copy : Compiled → ℕ → Scan → Moved → Option Put
unfolding scan_status
keep_copy a c s m =
    let status = scan_status a.dept m in
    let s' = record s { win = set_at s.win s.w c; state = m.state; keyword = m.keyword } in
    if leb wsize s.w
    then none
    else if leb (wsize - 1) s.w
    then some (full (keyword_set (status == match_status || s.tag) m.keyword))
    else some (
        put
          (record s' {
            st = set_at s.st s.w status;
            w = s.w + 1;
            tag = if status == match_status then true else s.tag;
          })
          (status == match_status))

-- The copy of one byte from `d` places back, as the loops over a repetition make it; nothing
-- happens where that is before the window.
unfoldable pub put_copy : Compiled → ℕ → Scan → Option Put
unfolding fsm keep_copy
put_copy a d s =
    if ltb s.w d
    then some (put s false)
    else fsm a.table s.state (s.win (s.w - d)) s.keyword >>= keep_copy a (s.win (s.w - d)) s

-- The end of a loop of copies: by a full window, or the scan, whether it stopped at a match, and how
-- many rounds it made before that.
pub data Copied : Type 0 where
  full : Option Bytes → Copied
  copied : Scan → Bool → ℕ → Copied

-- `n` rounds of copies.
unfoldable pub copy_loop : Compiled → ℕ → ℕ → ℕ → Scan → Option Copied
unfolding put_copy
copy_loop a d zero done s = some (copied s false done)
copy_loop a d (suc n) done s = do
  r ← put_copy a d s
  elim r [
    | full k ↦ some (full k)
    | put s' true ↦ some (copied s' true done)
    | put s' false ↦ copy_loop a d n (done + 1) s'
  ]

-- while (acsm->dept[state] > j && j < len), with `n` for `len - j`.
unfoldable pub left_loop : Compiled → ℕ → ℕ → ℕ → Scan → Option Copied
unfolding put_copy
left_loop a d zero j s = some (copied s false j)
left_loop a d (suc n) j s =
    if ltb j (a.dept s.state)
    then (do
      r ← put_copy a d s
      elim r [
        | full k ↦ some (full k)
        | put s' true ↦ some (copied s' true (j + 1))
        | put s' false ↦ left_loop a d n (j + 1) s'
      ])
    else some (copied s false j)

-- The loop over `fk`, with `n` for `len - fk`: the first place that has a match, else `last`. The
-- index is w - d + fk, although `w` has gone on by `j`.
unfoldable pub first_match : Scan → ℕ → ℕ → ℕ → ℕ → Option ℕ
first_match s d zero fk last = some last
first_match s d (suc n) fk last =
    let rest = first_match s d n (fk + 1) last in
    if ltb (s.w + fk) d
    then rest
    else if leb wsize (s.w + fk - d)
    then none
    else if s.st (s.w + fk - d) == match_status
    then some fk
    else rest

-- The loop over `fp` from `k` down to `j`, with `n` for `fp + 1 - j`: the last place of small depth,
-- else `j`.
unfoldable pub last_shallow : Scan → ℕ → ℕ → ℕ → Option ℕ
last_shallow s d zero j = some j
last_shallow s d (suc n) j =
    let rest = last_shallow s d n j in
    let fp = j + n in
    if ltb (s.w + fp) d
    then rest
    else if leb wsize (s.w + fp - d)
    then none
    else if s.st (s.w + fp - d) == 2
    then some fp
    else rest

-- The copies that the automaton does not see; they are made without a look at the bounds.
unfoldable pub skip_loop : ℕ → ℕ → Scan → Option Scan
skip_loop d zero s = some s
skip_loop d (suc n) s =
    if ltb s.w d
    then none
    else if leb wsize s.w
    then none
    else skip_loop d n (record s { win = set_at s.win s.w (s.win (s.w - d)); w = s.w + 1 })

-- if (j < (p-CDepth+1)): the skip, and the copies up to `p`.
unfoldable pub skip_part : Compiled → ℕ → ℕ → ℕ → Scan → Option Copied
unfolding skip_loop copy_loop
skip_part a d j p s =
    if ltb (j + c_depth) (p + 1)
    then (do
      s' ← skip_loop d (p + 1 - c_depth - j) s
      copy_loop a d (c_depth - 1) (p + 1 - c_depth) (record s' { state = 0 }))
    else some (copied s false j)

-- The body of while (k < len - 1), from `j` on: the new `j` beside the scan.
unfoldable pub right_round : Compiled → ℕ → ℕ → ℕ → Scan → Option Copied
unfolding first_match last_shallow skip_part copy_loop
right_round a d len j s = do
  k ← first_match s d (len - j) j (len - 1)
  p ← last_shallow s d (k + 1 - j) j
  r ← skip_part a d j p s
  elim r [
    | full k ↦ some (full k)
    | copied s' hit j' ↦ do
      r' ← copy_loop a d (k + 1 - j') j' s'
      elim r' [ full k ↦ some (full k) | copied s'' hit' j'' ↦ some (copied s'' s''.tag (k + 1)) ]
  ]

-- while (k < len - 1), where `j` is `k + 1`; each round advances `j`, so `len` rounds are enough.
unfoldable pub right_loop : ℕ → Compiled → ℕ → ℕ → ℕ → Scan → Option Copied
unfolding right_round
right_loop zero a d len j s = if ltb j len then none else some (copied s false j)
right_loop (suc fuel) a d len j s =
    if ltb j len
    then (do
      r ← right_round a d len j s
      elim r [
        | full k ↦ some (full k)
        | copied s' true j' ↦ some (copied s' true j')
        | copied s' false j' ↦ right_loop fuel a d len j' s'
      ])
    else some (copied s false j)

-- The branch for a repetition.
unfoldable pub put_repetition : Compiled → ℕ → ℕ → Scan → Option Put
unfolding left_loop right_loop
put_repetition a d len s = do
  r ← left_loop a d len 0 s
  elim r [
    | full k ↦ some (full k)
    | copied s' true j ↦ some (put s' true)
    | copied s' false j ↦ do
      r' ← right_loop len a d len j s'
      elim r' [ full k ↦ some (full k) | copied s'' hit j' ↦ some (put s'' hit) ]
  ]

unfoldable pub put_token : Compiled → Token → Scan → Option Put
unfolding put_literal put_repetition
put_token a k s = if k.dist == 0 then put_literal a k.l s else put_repetition a k.dist (k.l + 3) s

-- What `acch` returns: 0, with `keyword` if it has been set before the window was full, or 1 with
-- `*text_len` and `keyword`.
pub data Found : Type 0 where
  no_match : Found
  lost_match : Bytes → Found
  match_at : ℕ → Bytes → Found

-- The loop of `acch`, at token `i`.
unfoldable pub acch_loop : Compiled → ℕ → List Token → Scan → Option Found
unfolding put_token
acch_loop a i [] s = some no_match
acch_loop a i (k ∷ ks) s = do
  r ← put_token a k s
  elim r [
    | full k ↦ some (elim k [ none ↦ no_match | some keyword ↦ lost_match keyword ])
    | put s' true ↦ some (match_at i s'.keyword)
    | put s' false ↦ acch_loop a (i + 1) ks s'
  ]

-- `acch` from offset 0, as `keyword_match` calls it; `win` and `st` are what earlier calls left, and
-- `keyword` is what the caller's array holds.
unfoldable pub acch : Compiled → (ℕ → ℕ) → (ℕ → ℕ) → Bytes → List Token → Option Found
unfolding acch_loop
acch a win st keyword ks =
    acch_loop a 0 ks
      (record { win = win; st = st; w = 0; state = 0; tag = false; keyword = keyword })

-- `result[i++] = result[i - dist]`, `len` times. (In C the two uses of `i` are not sequenced; the
-- index is read before it goes on.)
unfoldable pub repeat_back : ℕ → ℕ → Bytes → Option Bytes
repeat_back dist zero result = some result
repeat_back dist (suc len) result =
    if ltb (length result) dist
    then none
    else do c ← get_elem? result (length result - dist); repeat_back dist len (result ++ c ∷ [])

unfoldable pub decode_token : Token → Bytes → Option Bytes
unfolding repeat_back
decode_token k result =
    if k.dist == 0 then some (result ++ k.l ∷ []) else repeat_back k.dist (k.l + 3) result

-- `decodeing`; `none` is a read before the result.
unfoldable pub decodeing : List Token → Bytes → Option Bytes
unfolding decode_token
decodeing [] result = some result
decodeing (k ∷ ks) result = do r ← decode_token k result; decodeing ks r
