-- ===== src/Trie/Stored.antt =====
-- trie.c: which rules a tree holds, and what it means that a rule accepts a text.
use school_project.Common.{
  ℕ, ◌≡◌, some, Bool, true, false, ◌&&◌, ◌||◌, Option, none, [], ◌∷◌, ◌==◌, ◌>>=◌, if◌then◌else◌,
  refl, inl, inr, Option-cases, arith, Bytes,
}
use school_project.Trie.{Node, null, node, c2i, is_null, skip_run}

abbrev pub below : Bool → Option ℕ → Option ℕ
below true r = none
below false r = r

-- The id of the rule `p`, along references that are not dead.
unfoldable pub stored : Node → Bytes → Option ℕ
stored null p = none
stored (node ref id child) [] = id
stored (node ref id child) (c ∷ p) = do i ← c2i c; below (is_null (child i)) (stored (child i) p)

-- What is left of a text behind the field that it begins with.
unfoldable pub behind_field : Bytes → Bytes
behind_field [] = []
behind_field (c ∷ s) = if c == b' ' then c ∷ s else behind_field s

pub skip_run-behind : (s : Bytes) → skip_run s ≡ behind_field s
unfolding skip_run behind_field
skip_run-behind [] = refl
skip_run-behind (c ∷ s) = ground (arith, skip_run-behind s)

-- The rule accepts the text: a star takes what is left of a field, and never takes nothing at the
-- end of the text.
unfoldable pub accepts : Bytes → Bytes → Bool
accepts [] [] = true
accepts [] (c ∷ s) = false
accepts (x ∷ p) [] = false
accepts (x ∷ p) (c ∷ s) = (x == c && accepts p s) || (x == b'*' && accepts p (behind_field (c ∷ s)))

-- Every character of the text has a place in `child`.
abbrev pub Indexed : Bytes → Type 0
Indexed [] = Unit
Indexed (c ∷ s) = ((i : ℕ) × (c2i c ≡ some i)) × Indexed s

-- The test of that, for texts at hand.
unfoldable pub all_indexed : Bytes → Bool
all_indexed [] = true
all_indexed (c ∷ s) = elim (c2i c) [ none ↦ false | some i ↦ all_indexed s ]

pub Indexed-of_test : (s : Bytes) → all_indexed s ≡ true → Indexed s
unfolding all_indexed
Indexed-of_test [] h = tt
Indexed-of_test (c ∷ s) h = elim (Option-cases (c2i c)) [
  | inl e ↦ absurd (ground arith)
  | inr e ↦ (e, Indexed-of_test s (ground arith))
]
