-- ===== src/Trie/Alphabet.antt =====
-- trie.c, `c2i` and `i2c`: the twelve characters of a rule and their places in `child`.
use school_project.Common.{ℕ, zero, suc, ◌<◌, ◌≡◌, ◌≤◌, ◌↔◌, true, false, none, some, arith}
use school_project.Trie.{Node, c2i, i2c, childnum, is_null, any_child, has_child, star}

pub c2i-lt : (c : ℕ) {i : ℕ} → c2i c ≡ some i → i < childnum
unfolding c2i
c2i-lt c h = ground arith

pub c2i_injective : (c d : ℕ) {i : ℕ} → c2i c ≡ some i → c2i d ≡ some i → c ≡ d
unfolding c2i
c2i_injective c d h k = ground arith

pub c2i-star : (c : ℕ) {i : ℕ} → c2i c ≡ some i → c ≡ b'*' → i ≡ star
unfolding c2i
c2i-star c h e = ground arith

-- The two functions are inverse to one another, and `i2c` is defined exactly below CHILDNUM.
pub c2i-i2c : (i c : ℕ) → ((i2c i ≡ some c) ↔ (c2i c ≡ some i)) × ((i2c i ≡ none) ↔ (childnum ≤ i))
unfolding c2i i2c
c2i-i2c i c =
    (((λ h. ground arith), (λ h. ground arith)), ((λ h. ground arith), (λ h. ground arith)))

pub any_child-true :
    (k i : ℕ) (child : ℕ → Node) → i < k → is_null (child i) ≡ false → any_child k child ≡ true
unfolding any_child
any_child-true zero i child h n = elim h [ ]
any_child-true (suc k) i child h n = ground (arith, any_child-true k i child)

-- A live child at an index of the alphabet is seen by the loop of `has_child`.
pub has_child-true :
    (i : ℕ) (child : ℕ → Node) → i < childnum → is_null (child i) ≡ false → has_child child ≡ true
unfolding has_child
has_child-true i child = any_child-true 12 i child
