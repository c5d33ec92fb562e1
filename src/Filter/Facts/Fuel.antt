-- ===== src/Filter/Facts/Fuel.antt =====
-- The fuel of Filter.Like, with which patterns of serverbrowser/filter/eval.go are matched.
use wfc_server_private.Filter.Like.{
  Item, literal, any, many, width, is_newline, is_empty, front_is, matches,
}
use wfc_server_private.Prelude.{
  ℕ, zero, suc, ◌≤◌, ◌≡◌, refl, sym, ◌∙◌, Bool, true, false, ◌||◌, List, [], ◌∷◌, arith, ◌==◌,
  if◌then◌else◌, Bytes, length, drop, length-drop,
}

width_if : (b : Bool) (m n : ℕ) → 1 ≤ m → 1 ≤ n → 1 ≤ (if b then m else n)
width_if true m n h k = h
width_if false m n h k = k

width_pos : (s : Bytes) → 1 ≤ width s
unfolding width
width_pos [] = omega arith
width_pos (a ∷ []) = omega arith
width_pos (a ∷ b ∷ []) = width_if _ 2 1 (omega arith) (omega arith)
width_pos (a ∷ b ∷ c ∷ []) =
    width_if _ 2 _ (omega arith) (width_if _ 3 1 (omega arith) (omega arith))
width_pos (a ∷ b ∷ c ∷ d ∷ s) =
    width_if _ 2 _ (omega arith)
      (width_if _ 3 _ (omega arith) (width_if _ 4 1 (omega arith) (omega arith)))

-- A character less than a text with one is shorter.
shorter :
    (c : ℕ) (s : Bytes) (n : ℕ) → length (c ∷ s) ≤ suc n → length (drop (width (c ∷ s)) (c ∷ s)) ≤ n
shorter c s n h = omega (arith, length-drop (width (c ∷ s)) (c ∷ s), width_pos (c ∷ s))

not_longer : (k : ℕ) (s : Bytes) (n : ℕ) → length s ≤ n → length (drop k s) ≤ n
not_longer k s n h = omega (arith, length-drop k s)

-- The three ways in which the matching goes on, where what follows is the same.
then_same :
    (b m n : Bool)
    → m ≡ n
    → elim b as (λ _. Bool) [ true ↦ m | false ↦ false ]
      ≡ elim b as (λ _. Bool) [ true ↦ n | false ↦ false ]
then_same true m n h = h
then_same false m n h = refl

else_same :
    (b m n : Bool)
    → m ≡ n
    → elim b as (λ _. Bool) [ true ↦ false | false ↦ m ]
      ≡ elim b as (λ _. Bool) [ true ↦ false | false ↦ n ]
else_same true m n h = refl
else_same false m n h = h

either_same :
    (m n x y : Bool)
    → m ≡ n
    → x ≡ y
    → elim m as (λ _. Bool) [ true ↦ true | false ↦ x ]
      ≡ elim n as (λ _. Bool) [ true ↦ true | false ↦ y ]
either_same true true x y h k = refl
either_same true false x y h k = cc
either_same false true x y h k = cc
either_same false false x y h k = k

itself_or_false : (m : Bool) → elim m as (λ _. Bool) [ true ↦ true | false ↦ false ] ≡ m
itself_or_false true = refl
itself_or_false false = refl

-- Any two amounts of fuel that are at least the length of the text give the same answer, whatever
-- the pattern.
pub matches_fuel :
    (items : List Item) (s : Bytes) (f g : ℕ)
    → length s ≤ f
    → length s ≤ g
    → matches f items s ≡ matches g items s
unfolding matches is_empty
matches_fuel [] s f g hf hg = refl
matches_fuel (literal c ∷ items) s f g hf hg =
    then_same (front_is c s) _ _
      (matches_fuel items (drop 1 s) f g (not_longer 1 s f hf) (not_longer 1 s g hg))
matches_fuel (any ∷ items) s f g hf hg = else_same (is_empty s || is_newline s) _ _ (
    matches_fuel items (drop (width s) s) f g (not_longer (width s) s f hf)
      (not_longer (width s) s g hg))
matches_fuel (many ∷ items) s zero zero hf hg = refl
matches_fuel (many ∷ items) [] zero (suc g) hf hg =
    matches_fuel items [] zero (suc g) hf hg ∙ sym (itself_or_false (matches (suc g) items []))
matches_fuel (many ∷ items) (c ∷ s) zero (suc g) hf hg = absurd (omega arith)
matches_fuel (many ∷ items) [] (suc f) zero hf hg =
    itself_or_false (matches (suc f) items []) ∙ matches_fuel items [] (suc f) zero hf hg
matches_fuel (many ∷ items) (c ∷ s) (suc f) zero hf hg = absurd (omega arith)
matches_fuel (many ∷ items) [] (suc f) (suc g) hf hg =
    either_same _ _ false false (matches_fuel items [] (suc f) (suc g) hf hg) refl
matches_fuel (many ∷ items) (c ∷ s) (suc f) (suc g) hf hg =
    either_same _ _ _ _ (matches_fuel items (c ∷ s) (suc f) (suc g) hf hg) (
      else_same (c == 10) _ _ (
        matches_fuel (many ∷ items) (drop (width (c ∷ s)) (c ∷ s)) f g (shorter c s f hf)
          (shorter c s g hg)))
