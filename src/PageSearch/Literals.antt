-- ===== src/PageSearch/Literals.antt =====
-- acsm.c, `acch`: on a page without repetitions the search misses nothing.
use mathlib.Core.List.{append_assoc, append-nil}
use school_project.PageSearch.Sound.{AreBytes, Reported, OccursSome, acch-Reported}
use school_project.Common.{
  ℕ, ◌+◌, ◌-◌, ◌<◌, ◌≡◌, ◌≢◌, ◌⊎◌, refl, sym, ap, ◌∙◌, false, not, some, List, [], ◌∷◌, ◌++◌, ◌==◌,
  leb, if◌then◌else◌, arith, Bytes, length, Bool-cases, inl, inr,
}
use school_project.Acsm.{StateTable, Building, pattern_states}
use school_project.Acsm.Patterns.{times}
use school_project.Acsm.Labels.{IsBuilt, AllBytes}
use school_project.Acsm.Longest.{longest, longest-le, longest-nil, ends}
use school_project.Acsm.Finish.{IsFinished}
use school_project.Acsm.Occurrences.{endings, occurrences, wanted-longest}
use school_project.PageAcsm.{PageAcsm}
use school_project.PageAcsm.Compile.{IsPageCompiled}
use school_project.PageSearch.{
  Token, Scan, no_match, match_at, wsize, match_status, set_at, keyword_size, scan_status, is_empty,
  fsm, keep_literal, put_literal, put_token, acch_loop, acch, decodeing, decode_token,
}
use school_project.PageSearch.Moves.{AreShort, fsm_lem}
use school_project.PageSearch.Copies.{automaton, scan_status-match}

-- A byte that stands by itself.
abbrev pub literal : ℕ → Token
literal c = record { l = c; dist = 0 }

abbrev pub literals : Bytes → List Token
literals [] = []
literals (c ∷ text) = literal c ∷ literals text

nothing_times : (l : List Bytes) (p : Bytes) → not (is_empty l) ≡ false → times p l ≡ 0
unfolding times is_empty
nothing_times [] p e = refl
nothing_times (q ∷ l) p e = absurd (cc e)

module _ {b : Building} {label : ℕ → Bytes} {added : Bytes → ℕ} {t : StateTable}
    (v : IsBuilt b label added) (f : IsFinished b label added t) (short : AreShort added)
    (dept : ℕ → ℕ) where
  -- A state that lists nothing: the text ends in no pattern.
  ends_none :
      (p x : Bytes)
      → not (is_empty (t (longest b.table x)).match_list) ≡ false
      → added p ≢ 0
      → ends p x ≡ false
  ends_none p x e n =
      let none_listed : times p (t (longest b.table x)).match_list ≡ 0 = nothing_times _ p e in
      let m : (if ends p x then added p else 0) ≡ 0 =
        sym (wanted-longest v f p x)
        ∙ sym (f.reports (longest b.table x) p (longest-le v.tree x))
        ∙ none_listed in
      elim (Bool-cases (ends p x)) [ inl y ↦ absurd (n (rw y at m)) | inr y ↦ y ]

  literals-endings :
      (text x : Bytes) (i : ℕ) (s : Scan)
      → s.state ≡ longest b.table x
      → AllBytes text
      → s.w + length text + 1 < wsize
      → acch_loop (automaton v f short dept) i (literals text) s ≡ some no_match
      → (p : Bytes) → added p ≢ 0
      → endings p x text ≡ 0
  unfolding acch_loop put_token put_literal keep_literal endings
  literals-endings [] x i s here bytes room e p n = refl
  literals-endings (c ∷ text) x i s here (byte, bytes) room e p n =
      let (m, q, state, out) = fsm_lem v f short x c s.keyword byte in
      let q' : fsm t s.state c s.keyword ≡ some m = rw here q in
      let inside : leb wsize s.w ≡ false = ground arith in
      let before : leb (wsize - 1) s.w ≡ false = ground arith in
      let hit : (scan_status dept m == match_status) ≡ m.out = scan_status-match dept m in
      elim (Bool-cases m.out) [
        | inl o ↦ absurd (cc (rw (q', inside, hit ∙ o, put_literal, keep_literal) at e))
        | inr o ↦
            let s' : Scan = record {
              win = set_at s.win s.w c;
              st = set_at s.st s.w (scan_status dept m);
              w = s.w + 1;
              state = m.state;
              tag = s.tag;
              keyword = m.keyword;
            } in
            let rest : acch_loop (automaton v f short dept) (i + 1) (literals text) s'
                ≡ some no_match =
              rw (q', inside, hit ∙ o, before, put_literal, keep_literal) at e in
            let first : ends p (x ++ c ∷ []) ≡ false = ends_none p (x ++ c ∷ []) (sym out ∙ o) n in
            let others : endings p (x ++ c ∷ []) text ≡ 0 =
              literals-endings text (x ++ c ∷ []) (i + 1) s' state bytes (omega arith) rest p n in
            rw first (omega (arith, others))
      ]

decodeing-literals : (text x : Bytes) → decodeing (literals text) x ≡ some (x ++ text)
unfolding decodeing decode_token
decodeing-literals [] x = ap some (sym (append-nil x))
decodeing-literals (c ∷ text) x =
    decodeing-literals text (x ++ c ∷ []) ∙ ap some (append_assoc x (c ∷ []) text)

literals-AreBytes : (text : Bytes) → AllBytes text → AreBytes (literals text)
unfolding AreBytes
literals-AreBytes [] h = tt
literals-AreBytes (c ∷ text) (b, h) = (b, literals-AreBytes text h)

-- If the automaton is what `acsmcompile` leaves, every pattern fits into the array for the keyword,
-- and the page is a text without repetitions that leaves 260 bytes of the window free, then `acch`
-- returns: it reports a match and some pattern stands in the text, or it reports none and no pattern
-- occurs in the text.
pub acch-literals :
    (a a' : PageAcsm) (i : IsPageCompiled a a')
    → ((p : Bytes) → times p a.patterns ≢ 0 → length p < keyword_size)
    → (win st : ℕ → ℕ) (keyword : Bytes) (text : Bytes) → AllBytes text
    → length text + 260 < wsize
    → ((k : ℕ) × (kw : Bytes) × (acch
            (record { table = i.compiled.table; dept = a'.dept })
            win
            st
            keyword
            (literals text)
          ≡ some (match_at k kw))
        × OccursSome (λ p. times p a.patterns) text)
      ⊎ ((acch (record { table = i.compiled.table; dept = a'.dept }) win st keyword (literals text)
            ≡ some no_match)
          × ((p : Bytes) → times p a.patterns ≢ 0 → occurrences p text ≡ 0))
unfolding acch occurrences
acch-literals a a' i short win st keyword text bytes room =
    elim (acch-Reported a a' i short win st keyword (literals text) text
      (literals-AreBytes text bytes) (decodeing-literals text []) room) [
        | Reported.reported k kw e found ↦ inl (k, kw, e, found)
        | Reported.nothing e ↦ inr (
          e,
          λ p n.
              literals-endings i.compiled.built i.compiled.finished short a'.dept text [] 0
                (record { win = win; st = st; w = 0; state = 0; tag = false; keyword = keyword })
                (sym (longest-nil (pattern_states a.patterns).table)) bytes (omega arith) e p n,
        )
      ]
