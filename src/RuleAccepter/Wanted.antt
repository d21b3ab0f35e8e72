-- ===== src/RuleAccepter/Wanted.antt =====
-- rule_accepter.c: the commands as the code reads them and as its comments show them, and what each
-- asks for.
use school_project.Common.{ℕ, ◌+◌, ◌<◌, none, some, List, [], ◌∷◌, ◌++◌, Bytes, length}
use school_project.Unicode.{strtounicode}
use school_project.RuleAccepter.{
  Action, add_query_rule, del_query_rule, add_query_rule_N, del_query_rule_N, add_str, del_str,
  remember, insert_for_userid, insert_for_resourceid, del, addurl, delurl,
}
use school_project.RuleAccepter.Fields.{IsField, line}

pub data Switch : Type 0 where
  enable : Switch
  disable : Switch

pub data Mode : Type 0 where
  monitor : Mode
  gk : Mode

pub data Traffic : Type 0 where
  up : Traffic
  down : Traffic

-- The commands. Each has an id, three dates and a type of the web.
pub record Config : Type 0 where
  pub configid : Bytes
  pub ctime : Bytes
  pub stime : Bytes
  pub etime : Bytes
  pub webtype : Bytes

pub data Command : Type 0 where
  keyword : Bytes → Switch → Mode → Traffic → Command
  userid : Bytes → Bytes → Switch → Command
  resourceid : Bytes → Bytes → Switch → Command
  url : Bytes → Switch → Command

abbrev pub switch_digit : Switch → ℕ
switch_digit enable = b'1'
switch_digit disable = b'0'

abbrev pub mode_digit : Mode → ℕ
mode_digit monitor = b'1'
mode_digit gk = b'2'

abbrev pub traffic_digit : Traffic → ℕ
traffic_digit up = b'1'
traffic_digit down = b'2'

abbrev pub write : Config → Command → Bytes
write c (keyword k s m t) = line (
    (b'1' ∷ [])
    ∷ c.configid
    ∷ k
    ∷ c.ctime
    ∷ c.stime
    ∷ c.etime
    ∷ (switch_digit s ∷ [])
    ∷ c.webtype
    ∷ (mode_digit m ∷ [])
    ∷ (traffic_digit t ∷ [])
    ∷ [])
write c (userid u a s) = line (
    (b'2' ∷ [])
    ∷ c.configid
    ∷ u
    ∷ a
    ∷ c.ctime
    ∷ c.stime
    ∷ c.etime
    ∷ (switch_digit s ∷ [])
    ∷ c.webtype
    ∷ [])
write c (resourceid r a s) = line (
    (b'3' ∷ [])
    ∷ c.configid
    ∷ r
    ∷ a
    ∷ c.ctime
    ∷ c.stime
    ∷ c.etime
    ∷ (switch_digit s ∷ [])
    ∷ c.webtype
    ∷ [])
write c (url u s) = line (
    (b'4' ∷ [])
    ∷ c.configid
    ∷ u
    ∷ c.ctime
    ∷ c.stime
    ∷ c.etime
    ∷ (switch_digit s ∷ [])
    ∷ c.webtype
    ∷ [])

-- The form that the comments of the code show: for a keyword without the field for the traffic.
abbrev pub write_shown : Config → Command → Bytes
write_shown c (keyword k s m t) = line (
    (b'1' ∷ [])
    ∷ c.configid
    ∷ k
    ∷ c.ctime
    ∷ c.stime
    ∷ c.etime
    ∷ (switch_digit s ∷ [])
    ∷ c.webtype
    ∷ (mode_digit m ∷ [])
    ∷ [])
write_shown c (userid u a s) = write c (userid u a s)
write_shown c (resourceid r a s) = write c (resourceid r a s)
write_shown c (url u s) = write c (url u s)

-- Its own fields have no bars, and the text that it hands on fits.
abbrev pub IsCommand : Command → Type 0
IsCommand (keyword k s m t) = IsField k × (length k < 256)
IsCommand (userid u a s) = IsField u × IsField a × (length u + length a < 253)
IsCommand (resourceid r a s) = IsField r × IsField a × (length r + length a < 253)
IsCommand (url u s) = IsField u × (length u < 256)

abbrev pub IsConfig : Config → Type 0
IsConfig c =
    IsField c.configid × IsField c.ctime × IsField c.stime × IsField c.etime × IsField c.webtype

-- A keyword of the pages is looked for as it is and as JSON escapes it.
abbrev pub page_keyword : Bytes → (Bytes → List Action) → List Action
page_keyword k also =
    add_str k ∷ elim (strtounicode k) [ none ↦ [] | some key ↦ add_str key ∷ also key ]

abbrev pub wanted : Command → List Action
wanted (keyword k enable gk up) = add_query_rule k ∷ []
wanted (keyword k enable gk down) = page_keyword k (λ key. remember k key ∷ [])
wanted (keyword k disable gk t) = del_query_rule k ∷ del_str k ∷ []
wanted (keyword k enable monitor up) = add_query_rule_N k ∷ []
wanted (keyword k enable monitor down) = add_query_rule_N k ∷ page_keyword k (λ key. [])
wanted (keyword k disable monitor t) = del_query_rule_N k ∷ []
wanted (userid u a enable) = insert_for_userid (u ++ (b' ' ∷ a) ++ (b' ' ∷ b'*' ∷ [])) ∷ []
wanted (userid u a disable) = del (u ++ (b' ' ∷ a) ++ (b' ' ∷ b'*' ∷ [])) ∷ []
wanted (resourceid r a enable) = insert_for_resourceid (b'*' ∷ b' ' ∷ (a ++ (b' ' ∷ r))) ∷ []
wanted (resourceid r a disable) = del (b'*' ∷ b' ' ∷ (a ++ (b' ' ∷ r))) ∷ []
wanted (url u enable) = addurl u ∷ []
wanted (url u disable) = delurl u ∷ []

-- What the form of the comments gives: a keyword that is enabled is looked for in no traffic in gk
-- mode, and in the traffic up alone in monitor mode.
abbrev pub wanted_shown : Command → List Action
wanted_shown (keyword k enable gk t) = []
wanted_shown (keyword k enable monitor t) = add_query_rule_N k ∷ []
wanted_shown (keyword k disable gk t) = wanted (keyword k disable gk t)
wanted_shown (keyword k disable monitor t) = wanted (keyword k disable monitor t)
wanted_shown (userid u a s) = wanted (userid u a s)
wanted_shown (resourceid r a s) = wanted (resourceid r a s)
wanted_shown (url u s) = wanted (url u s)
