-- ===== src/Lib.antt =====
-- A model of the traffic monitor's rule engine, with the theorems that make it correct.
--
-- The program watches HTTP traffic. A packet's fields are checked against rules: a rule names a
-- subject, an action and a resource (trie.c), or is an expression of keywords (query_table.c) that
-- are found in the text by Aho-Corasick automata (acsmx.c). Rules arrive as lines of text over a
-- socket (rule_accepter.c); a keyword for the pages that come back is also looked for as JSON
-- writes it (down_string_match.c), in the tokens of a page that is decompressed (acsm.c).
--
-- Common        Numbers, lists, options and C strings. A C string is the list of its bytes without
--               the NUL, and a `char` a number below 256.
-- Trie          trie.c. `Node` is `struct node` with NULL, `TrieState` its globals; c2i, has_child,
--               match_, insert_for_userid, insert_for_resourceid, del, match, trie_add_rule,
--               trie_del_rule, trie_chk_rule are the functions of these names, and `check_one` is
--               trie_chk_rule_. The counter of a node is a `short`, whose wrap is written out.
-- Query         query_table.c. `QueryExpression` and `QueryTable` are its structs; the functions
--               on the second table (with _N) are the same code, so the automaton is a parameter:
--               `addstr` adds a word and `keywords` are the words that are found in a text.
-- Acsm          acsmx.c. `Acsm` is ACSM_STRUCT, a state table a function from states to rows. Tree, Labels
--               and Insertion are about AddPatternStates, Longest and Failure about what the DFA has
--               to be, Bfs to Compile about Build_DFA, Occurrences and Search about the searches.
-- PageAcsm      acsm.c: `PageAcsm` is ACSMX_STRUCT; acsmnew, acsmaddPattern, acsmdelPattern and acsmcompile,
--               which also notes the depth of each state. Build_DFA is the text of acsmx.c's.
-- PageSearch    acsm.c: `acch`, which searches a page by the tokens of its decompression. `Scan` is its window,
--               the statuses of the places in it and its variables; Moves to Repetitions follow a token through
--               the loops, Sound is about the whole search and Literals about pages without
--               repetitions. `decodeing` says what the tokens mean.
-- PageLog       acsm.c: keyword_match, replace and the text that add_log sends.
-- DownMatch     down_string_match.c: M and N, add_str, del_str, down_ac.
-- Unicode       down_string_match.c, `strtounicode`.
-- StringMatcher string_matcher.c: the pairs A/B, NA/NB and URL_A/URL_B, R, their changes and searches.
-- Decision      loop.c, `get_decision`; the automata are functions of `Engine`.
-- StreamTable   get_data.c: `DataHead` is `struct data_head`, a bucket of the table the list of its heads;
--               find_stream, insert_new_data_segment, free_data_stream and tcp_stream_handler.
--               process_gzip_data, which decompresses, and mkhash are arguments.
-- StreamLoop    loop.c: check_gk, set_gk, update_dh and process_data_head on a `DataHead`, and the slots
--               that a thread comes to, and get_buffer and get_request. Each function runs as a whole; what
--               processhttp and get_decision say of a request is an argument.
-- HttpParse     http_parse.c: _header_field_type, _page_type_ and urldecode_my.
-- HttpFields    http_parse.c: _url_parse, on_url, on_header_field and on_header_value. `HttpRequest` is what they
--               keep; parseURL, readURLField and atoi are arguments.
-- HttpBody      http_parse.c: on_body; qs_scanvalue and what malloc gives are arguments.
-- Memory        Arena.c and MemoryManager.c: `Arena` and `MemoryManager` are the structs, a pointer is
--               counted from the arena's first byte, and `malloc` is taken to succeed.
-- RuleAccepter  rule_accepter.c, `rule_process`, as the list of the calls that it makes.
--
-- How they fit together: `rule_process` calls the operations of the tree and of the tables; adding
-- an expression adds its words to an automaton, whose search gives the keywords that the
-- expression is evaluated on.
--
-- `none` is what the C code leaves undefined: a read through NULL, a write past an array, a function
-- that ends without its value, a read of what was freed or never set. Where a theorem gives `some`, none of these happens.
--
-- Fuel: `acsm_compile` runs its queue for one round per state that the table can hold (each state is
-- queued once) and follows a chain of failure states for no longer than that; `right_loop` has a round
-- for each byte of a repetition, since each round goes on by a byte or more. It is proved that this is
-- enough. All other loops are structural.
--
-- Not modelled: the data base (sqlite, MySQL), sockets, logs and packet capture, which are I/O; the
-- release of memory; http.c, urlparser.c, qs_parse.c, copeungz.c, hash.c and util.c, which are copies
-- of other projects' sources; processhttp, which runs the parser of
-- http.c.

pub mod Common
pub mod Acsm
pub mod Decision
pub mod DownMatch
pub mod HttpBody
pub mod HttpFields
pub mod HttpParse
pub mod Memory
pub mod PageAcsm
pub mod PageLog
pub mod PageSearch
pub mod Query
pub mod RuleAccepter
pub mod StreamLoop
pub mod StreamTable
pub mod StringMatcher
pub mod Trie
pub mod Unicode
