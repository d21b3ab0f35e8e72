-- ===== src/RuleAccepter/Commands.antt =====
-- rule_accepter.c: a written command makes the calls that it asks for.
use school_project.Common.{
  ◌+◌, ◌<◌, ◌≡◌, ◌≢◌, refl, ap, ◌∙◌, none, some, List, [], ◌∷◌, ◌++◌, ◌==◌, if◌then◌else◌, Bytes,
  length, arith, length-append,
}
use school_project.Unicode.{strtounicode}
use school_project.RuleAccepter.{
  Action, insert_for_userid, insert_for_resourceid, del, addurl, delurl, fits, keyword_actions,
  keyword_rule, userid_rule, resourceid_rule, url_rule, rule_process,
}
use school_project.RuleAccepter.Fields.{IsField, after_bar-line, field-line}
use school_project.RuleAccepter.Wanted.{
  Switch, Mode, Traffic, Config, Command, switch_digit, mode_digit, traffic_digit, write, IsCommand,
  IsConfig, wanted, write_shown, wanted_shown, enable, disable, monitor, gk, up, down, keyword,
  userid, resourceid, url,
}

fits-short : (s : Bytes) → length s < 256 → fits s ≡ some s
unfolding fits
fits-short s h = ground arith

switch_digit-field : (s : Switch) → switch_digit s ≢ b'|'
switch_digit-field enable = ground arith
switch_digit-field disable = ground arith

mode_digit-field : (m : Mode) → mode_digit m ≢ b'|'
mode_digit-field monitor = ground arith
mode_digit-field gk = ground arith

keyword_rule-write :
    (c : Config) (k : Bytes) (s : Switch) (m : Mode) (t : Traffic)
    → IsConfig c
    → IsField k
    → length k < 256
    → keyword_rule (write c (keyword k s m t))
      ≡ some (keyword_actions k (switch_digit s) (mode_digit m) (traffic_digit t))
unfolding keyword_rule
keyword_rule-write c k s m t (i, ct, st, et, w) f n =
    rw
      (
        after_bar-line c.configid _ i,
        after_bar-line k _ f,
        after_bar-line c.ctime _ ct,
        after_bar-line c.stime _ st,
        after_bar-line c.etime _ et,
        after_bar-line (switch_digit s ∷ []) _ (switch_digit-field s, tt),
        after_bar-line c.webtype _ w,
        after_bar-line (mode_digit m ∷ []) _ (mode_digit-field m, tt),
        field-line k _ f,
        fits-short k n,
      )
      refl

keyword_actions-wanted :
    (k : Bytes) (s : Switch) (m : Mode) (t : Traffic)
    → keyword_actions k (switch_digit s) (mode_digit m) (traffic_digit t) ≡ wanted (keyword k s m t)
unfolding keyword_actions
keyword_actions-wanted k enable monitor up = refl
keyword_actions-wanted k enable monitor down = elim (strtounicode k) [
  | none ↦ refl
  | some key ↦ refl
]
keyword_actions-wanted k enable gk up = refl
keyword_actions-wanted k enable gk down = elim (strtounicode k) [ none ↦ refl | some key ↦ refl ]
keyword_actions-wanted k disable monitor t = refl
keyword_actions-wanted k disable gk t = refl

-- What the test of the state chooses.
abbrev by_state : Switch → List Action → List Action → List Action
by_state s x y = if switch_digit s == b'1' then x else if switch_digit s == b'0' then y else []

by_state-userid :
    (u a : Bytes) (s : Switch)
    → by_state s
        (insert_for_userid (u ++ (b' ' ∷ a) ++ (b' ' ∷ b'*' ∷ [])) ∷ [])
        (del (u ++ (b' ' ∷ a) ++ (b' ' ∷ b'*' ∷ [])) ∷ [])
      ≡ wanted (userid u a s)
by_state-userid u a enable = refl
by_state-userid u a disable = refl

by_state-resourceid :
    (r a : Bytes) (s : Switch)
    → by_state s
        (insert_for_resourceid (b'*' ∷ b' ' ∷ (a ++ (b' ' ∷ r))) ∷ [])
        (del (b'*' ∷ b' ' ∷ (a ++ (b' ' ∷ r))) ∷ [])
      ≡ wanted (resourceid r a s)
by_state-resourceid r a enable = refl
by_state-resourceid r a disable = refl

by_state-url :
    (u : Bytes) (s : Switch) → by_state s (addurl u ∷ []) (delurl u ∷ []) ≡ wanted (url u s)
by_state-url u enable = refl
by_state-url u disable = refl

subject_fits :
    (u a : Bytes)
    → length u + length a < 253
    → fits (u ++ (b' ' ∷ a) ++ (b' ' ∷ b'*' ∷ [])) ≡ some (u ++ (b' ' ∷ a) ++ (b' ' ∷ b'*' ∷ []))
subject_fits u a n = fits-short _ (
    omega (
      arith,
      length-append u ((b' ' ∷ a) ++ (b' ' ∷ b'*' ∷ [])),
      length-append a (b' ' ∷ b'*' ∷ []),
      length-append (u ++ (b' ' ∷ a)) (b' ' ∷ b'*' ∷ []),
      length-append u (b' ' ∷ a),
    ))

resource_fits :
    (r a : Bytes)
    → length r + length a < 253
    → fits (b'*' ∷ b' ' ∷ (a ++ (b' ' ∷ r))) ≡ some (b'*' ∷ b' ' ∷ (a ++ (b' ' ∷ r)))
resource_fits r a n = fits-short _ (omega (arith, length-append a (b' ' ∷ r)))

userid_rule-write :
    (c : Config) (u a : Bytes) (s : Switch)
    → IsConfig c
    → IsField u
    → IsField a
    → length u + length a < 253
    → userid_rule (write c (userid u a s)) ≡ some (wanted (userid u a s))
unfolding userid_rule
userid_rule-write c u a s (i, ct, st, et, w) f g n =
    rw
      (
        after_bar-line c.configid _ i,
        after_bar-line u _ f,
        after_bar-line a _ g,
        after_bar-line c.ctime _ ct,
        after_bar-line c.stime _ st,
        after_bar-line c.etime _ et,
        after_bar-line (switch_digit s ∷ []) _ (switch_digit-field s, tt),
        field-line u _ f,
        field-line a _ g,
        subject_fits u a n,
      )
      (ap some (by_state-userid u a s))

resourceid_rule-write :
    (c : Config) (r a : Bytes) (s : Switch)
    → IsConfig c
    → IsField r
    → IsField a
    → length r + length a < 253
    → resourceid_rule (write c (resourceid r a s)) ≡ some (wanted (resourceid r a s))
unfolding resourceid_rule
resourceid_rule-write c r a s (i, ct, st, et, w) f g n =
    rw
      (
        after_bar-line c.configid _ i,
        after_bar-line r _ f,
        after_bar-line a _ g,
        after_bar-line c.ctime _ ct,
        after_bar-line c.stime _ st,
        after_bar-line c.etime _ et,
        after_bar-line (switch_digit s ∷ []) _ (switch_digit-field s, tt),
        field-line r _ f,
        field-line a _ g,
        resource_fits r a n,
      )
      (ap some (by_state-resourceid r a s))

url_rule-write :
    (c : Config) (u : Bytes) (s : Switch)
    → IsConfig c
    → IsField u
    → length u < 256
    → url_rule (write c (url u s)) ≡ some (wanted (url u s))
unfolding url_rule
url_rule-write c u s (i, ct, st, et, w) f n =
    rw
      (
        after_bar-line c.configid _ i,
        after_bar-line u _ f,
        after_bar-line c.ctime _ ct,
        after_bar-line c.stime _ st,
        after_bar-line c.etime _ et,
        after_bar-line (switch_digit s ∷ []) _ (switch_digit-field s, tt),
        field-line u _ f,
        fits-short u n,
      )
      (ap some (by_state-url u s))

shown_wanted :
    (k : Bytes) (s : Switch) (m : Mode) (t : Traffic)
    → keyword_actions k (switch_digit s) (mode_digit m) 0 ≡ wanted_shown (keyword k s m t)
unfolding keyword_actions
shown_wanted k enable monitor t = refl
shown_wanted k enable gk t = refl
shown_wanted k disable monitor t = refl
shown_wanted k disable gk t = refl

keyword_rule-write_shown :
    (c : Config) (k : Bytes) (s : Switch) (m : Mode) (t : Traffic)
    → IsConfig c
    → IsField k
    → length k < 256
    → keyword_rule (write_shown c (keyword k s m t))
      ≡ some (keyword_actions k (switch_digit s) (mode_digit m) 0)
unfolding keyword_rule
keyword_rule-write_shown c k s m t (i, ct, st, et, w) f n =
    rw
      (
        after_bar-line c.configid _ i,
        after_bar-line k _ f,
        after_bar-line c.ctime _ ct,
        after_bar-line c.stime _ st,
        after_bar-line c.etime _ et,
        after_bar-line (switch_digit s ∷ []) _ (switch_digit-field s, tt),
        after_bar-line c.webtype _ w,
        after_bar-line (mode_digit m ∷ []) _ (mode_digit-field m, tt),
        field-line k _ f,
        fits-short k n,
      )
      refl

-- Take a command of the four types, with fields that hold no bar and a text that fits its 256 bytes.
-- Written as the code reads it, with a last field for the traffic if it is about a keyword, it makes
-- exactly the calls that it asks for, in their order. Written as the comments of the code show it,
-- without that field, a command that enables a keyword makes no call in gk mode and adds it for the
-- traffic up alone in monitor mode; the other commands make the same calls.
pub rule_process-write :
    (c : Config) (command : Command)
    → IsConfig c
    → IsCommand command
    → (rule_process (write c command) ≡ some (wanted command))
      × (rule_process (write_shown c command) ≡ some (wanted_shown command))
unfolding rule_process
rule_process-write c (keyword k s m t) v (f, n) = (
  keyword_rule-write c k s m t v f n ∙ ap some (keyword_actions-wanted k s m t),
  keyword_rule-write_shown c k s m t v f n ∙ ap some (shown_wanted k s m t),
)
rule_process-write c (userid u a s) v (f, g, n) =
    let e = userid_rule-write c u a s v f g n in (e, e)
rule_process-write c (resourceid r a s) v (f, g, n) =
    let e = resourceid_rule-write c r a s v f g n in (e, e)
rule_process-write c (url u s) v (f, n) = let e = url_rule-write c u s v f n in (e, e)
