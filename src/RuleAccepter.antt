-- ===== src/RuleAccepter.antt =====
-- rule_accepter.c, `rule_process`: the command that a client sends, and the calls that it makes.
pub mod Fields
pub mod Wanted
pub mod Commands
pub mod Faults
pub mod Blocks
mod Examples
use school_project.Common.{
  ℕ, zero, suc, ◌+◌, ◌-◌, ◌*◌, Bool, true, false, Option, none, some, List, [], ◌∷◌, ◌++◌, ltb,
  ◌==◌, if◌then◌else◌, ◌>>=◌, Bytes, strchr, length,
}
use school_project.Unicode.{strtounicode}

-- The calls that `rule_process` makes on the matchers, in their order. `remember` is the entry that
-- it writes at `utos[utos_length++]`.
pub data Action : Type 0 where
  add_query_rule : Bytes → Action
  del_query_rule : Bytes → Action
  add_query_rule_N : Bytes → Action
  del_query_rule_N : Bytes → Action
  add_str : Bytes → Action
  del_str : Bytes → Action
  remember : Bytes → Bytes → Action
  insert_for_userid : Bytes → Action
  insert_for_resourceid : Bytes → Action
  del : Bytes → Action
  addurl : Bytes → Action
  delurl : Bytes → Action

-- strchr(s, '|') + 1; `none` is NULL + 1, through which the next call reads.
unfoldable pub after_bar : Bytes → Option Bytes
after_bar [] = none
after_bar (c ∷ s) = if c == b'|' then some s else after_bar s

-- What a field is copied as: the bytes in front of the next bar.
unfoldable pub field : Bytes → Bytes
field [] = []
field (c ∷ s) = if c == b'|' then [] else c ∷ field s

-- *p
unfoldable pub first : Bytes → ℕ
first [] = 0
first (c ∷ s) = c

-- k times `p = strchr(p, '|') + 1`.
unfoldable pub skip_bars : ℕ → Bytes → Option Bytes
unfolding after_bar
skip_bars zero s = some s
skip_bars (suc k) s = after_bar s >>= skip_bars k

-- A text for a `char[256]` that was cleared: one that does not fit faults.
unfoldable pub fits : Bytes → Option Bytes
fits s = if ltb (length s) 256 then some s else none

-- What is added for a keyword of the pages: itself and its JSON escapes.
unfoldable pub add_down_str : Bool → Bytes → List Action
add_down_str remembered rule1 = add_str rule1 ∷ elim (strtounicode rule1) [
  | none ↦ []
  | some key ↦ add_str key ∷ (if remembered then remember rule1 key ∷ [] else [])
]

unfoldable pub keyword_actions : Bytes → ℕ → ℕ → ℕ → List Action
unfolding add_down_str
keyword_actions rule1 state workmode up_or_down =
    if workmode == b'2'
    then if state == b'1'
      then (if up_or_down == b'1' then add_query_rule rule1 ∷ [] else [])
        ++ (if up_or_down == b'2' then add_down_str true rule1 else [])
      else if state == b'0'
      then del_query_rule rule1 ∷ del_str rule1 ∷ []
      else []
    else if workmode == b'1'
    then if state == b'1'
      then add_query_rule_N rule1 ∷ (if up_or_down == b'2' then add_down_str false rule1 else [])
      else if state == b'0'
      then del_query_rule_N rule1 ∷ []
      else []
    else []

-- Rule type 1: "1|111|keywords|2015-6-8|stime|etime|1|00|2|"
unfoldable pub keyword_rule : Bytes → Option (List Action)
unfolding skip_bars field fits first keyword_actions
keyword_rule rule = do
  keyword ← skip_bars 2 rule
  state ← skip_bars 4 keyword
  workmode ← skip_bars 2 state
  up_or_down ← skip_bars 1 workmode
  rule1 ← fits (field keyword)
  some (keyword_actions rule1 (first state) (first workmode) (first up_or_down))

-- Rule type 2: "2|222|userid|5|2015-6-8|stime|etime|1|00|"
unfoldable pub userid_rule : Bytes → Option (List Action)
unfolding skip_bars field fits first
userid_rule rule = do
  userid ← skip_bars 2 rule
  action ← skip_bars 1 userid
  state ← skip_bars 4 action
  webtype ← skip_bars 1 state
  rule2 ← fits (field userid ++ (b' ' ∷ field action) ++ (b' ' ∷ b'*' ∷ []))
  some (
      if first state == b'1'
      then insert_for_userid rule2 ∷ []
      else if first state == b'0'
      then del rule2 ∷ []
      else [])

-- Rule type 3: "3|222|resourceid|5|2015-6-8|stime|etime|1|00|"
unfoldable pub resourceid_rule : Bytes → Option (List Action)
unfolding skip_bars field fits first
resourceid_rule rule = do
  resourceid ← skip_bars 2 rule
  action ← skip_bars 1 resourceid
  state ← skip_bars 4 action
  webtype ← skip_bars 1 state
  rule3 ← fits ((b'*' ∷ b' ' ∷ field action) ++ (b' ' ∷ field resourceid))
  some (
      if first state == b'1'
      then insert_for_resourceid rule3 ∷ []
      else if first state == b'0'
      then del rule3 ∷ []
      else [])

-- Rule type 4: a URL.
unfoldable pub url_rule : Bytes → Option (List Action)
unfolding skip_bars field fits first
url_rule rule = do
  keyword ← skip_bars 2 rule
  state ← skip_bars 4 keyword
  webtype ← skip_bars 1 state
  rule1 ← fits (field keyword)
  some (
      if first state == b'1'
      then addurl rule1 ∷ []
      else if first state == b'0'
      then delurl rule1 ∷ []
      else [])

unfoldable pub rule_process : Bytes → Option (List Action)
unfolding keyword_rule userid_rule resourceid_rule url_rule
rule_process rule =
    if first rule == b'1'
    then keyword_rule rule
    else if first rule == b'2'
    then userid_rule rule
    else if first rule == b'3'
    then resourceid_rule rule
    else if first rule == b'4'
    then url_rule rule
    else some []
