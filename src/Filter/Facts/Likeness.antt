-- ===== src/Filter/Facts/Likeness.antt =====
-- The operator "like" of serverbrowser/filter/eval.go without wildcards.
use wfc_server_private.Filter.Eval.{truth}
use wfc_server_private.Filter.Like.{
  Item, literal, is_allowed, plain, like_items, is_empty, front_is, matches, like_texts,
}
use wfc_server_private.Filter.Run.{pure}
use wfc_server_private.Prelude.{
  ℕ, ◌≡◌, refl, inl, inr, Bool, true, false, ◌&&◌, ◌||◌, some, List, [], ◌∷◌, arith, leb, ◌==◌,
  Bytes, str_eq, Bool-cases, length, All,
}

-- a letter or a digit
unfoldable pub is_word : ℕ → Bool
is_word c = (leb b'a' c && leb c b'z') || ((leb b'A' c && leb c b'Z') || (leb b'0' c && leb c b'9'))

unfoldable literals : Bytes → List Item
literals [] = []
literals (c ∷ s) = literal c ∷ literals s

word_facts :
    (c : ℕ)
    → is_word c ≡ true
    → (is_allowed c ≡ true) × (plain c ≡ literal c ∷ []) × ((c == 92) ≡ false)
unfolding is_word is_allowed plain
word_facts c h = (ground arith, ground arith, ground arith)

word_items : (t : Bytes) → All (λ c. is_word c ≡ true) t → like_items false t ≡ some (literals t)
unfolding like_items literals is_word is_allowed plain
word_items [] h = refl
word_items (c ∷ t) (h, hs) =
    let (allowed, itself, unescaped) = word_facts c h in ground (arith, word_items t hs)

literals_match : (fuel : ℕ) (t s : Bytes) → matches fuel (literals t) s ≡ str_eq s t
unfolding matches literals is_empty front_is
literals_match fuel [] [] = refl
literals_match fuel [] (x ∷ s) = refl
literals_match fuel (c ∷ t) [] = refl
literals_match fuel (c ∷ t) (x ∷ s) = elim (Bool-cases (x == c)) [
  | inl e ↦ rw (e, matches) (literals_match fuel t s)
  | inr e ↦ rw (e, matches) refl
]

-- A pattern of letters and digits alone is like the text that it is, and like no other.
pub like_word :
    (s t : Bytes) → All (λ c. is_word c ≡ true) t → like_texts s t ≡ pure (truth (str_eq s t))
unfolding like_texts
like_word s t h = rw (word_items t h, like_texts) (rw (literals_match (length s) t s) refl)
