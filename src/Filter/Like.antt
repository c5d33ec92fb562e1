-- ===== src/Filter/Like.antt =====
-- evalLikeSingle of serverbrowser/filter/eval.go. The regular expression that the code builds has
-- literal characters, `.` and `.*` between `^` and `$`; it is kept as a list of those, and matched as
-- package regexp does: `.` is any one UTF-8 character but the newline.
use wfc_server_private.Filter.Run.{Run, pure, fail}
use wfc_server_private.Prelude.{
  ℕ, zero, suc, ◌≡◌, refl, Bool, true, false, not, ◌&&◌, ◌||◌, Option, none, some, List, [], ◌∷◌,
  ◌++◌, ltb, leb, ◌==◌, if◌then◌else◌, Bytes, str, length, drop,
}

pub data Item : Type 0 where
  literal : ℕ → Item
  any many : Item

-- allowedCharacters
unfoldable pub is_allowed : ℕ → Bool
is_allowed c =
    (leb b'a' c && leb c b'z')
    || ((leb b'A' c && leb c b'Z')
        || ((leb b'0' c && leb c b'9') || (c == b'_' || (c == b'%' || c == 92))))

-- the character `c`, not behind a backslash
unfoldable pub plain : ℕ → List Item
plain c =
    if c == b'%'
    then many ∷ []
    else if c == b'_'
    then any ∷ []
    else if c == 92
    then []
    else literal c ∷ []

-- The loop over `val2`; `escaped` says that the byte before is a backslash, itself escaped or not.
-- `none` is the panic on a character that is not allowed.
unfoldable pub like_items : Bool → Bytes → Option (List Item)
unfolding is_allowed plain
like_items escaped [] = some []
like_items escaped (c ∷ s) =
    let rest = like_items (c == 92) s in
    if not (is_allowed c) then none else elim rest [
      | none ↦ none
      | some items ↦ some ((if escaped then literal c ∷ [] else plain c) ++ items)
    ]

unfoldable pub is_cont : ℕ → Bool
is_cont c = leb 0x80 c && leb c 0xBF

-- the width of the character at the front, 1 where the bytes are no UTF-8
unfoldable pub width : Bytes → ℕ
unfolding is_cont
width (a ∷ b ∷ c ∷ d ∷ s) =
    if (leb 0xC2 a && leb a 0xDF) && is_cont b
    then 2
    else if (leb 0xE0 a && leb a 0xEF)
        && (is_cont b
            && (is_cont c && (not (a == 0xE0 && ltb b 0xA0) && not (a == 0xED && ltb 0x9F b))))
    then 3
    else if (leb 0xF0 a && leb a 0xF4)
        && (is_cont b
            && (is_cont c
                && (is_cont d && (not (a == 0xF0 && ltb b 0x90) && not (a == 0xF4 && ltb 0x8F b)))))
    then 4
    else 1
width (a ∷ b ∷ c ∷ []) =
    if (leb 0xC2 a && leb a 0xDF) && is_cont b
    then 2
    else if (leb 0xE0 a && leb a 0xEF)
        && (is_cont b
            && (is_cont c && (not (a == 0xE0 && ltb b 0xA0) && not (a == 0xED && ltb 0x9F b))))
    then 3
    else 1
width (a ∷ b ∷ []) = if (leb 0xC2 a && leb a 0xDF) && is_cont b then 2 else 1
width s = 1

unfoldable pub is_newline : Bytes → Bool
is_newline [] = false
is_newline (c ∷ s) = c == 10

unfoldable pub is_empty : Bytes → Bool
is_empty [] = true
is_empty (c ∷ s) = false

unfoldable pub front_is : ℕ → Bytes → Bool
front_is c [] = false
front_is c (d ∷ s) = d == c

-- The items against the whole of a text, with fuel for the characters of the text.
unfoldable pub matches : ℕ → List Item → Bytes → Bool
unfolding width is_newline is_empty front_is
matches fuel [] s = is_empty s
matches fuel (literal c ∷ items) s = elim (front_is c s) [
  | true ↦ matches fuel items (drop 1 s)
  | false ↦ false
]
matches fuel (any ∷ items) s = elim (is_empty s || is_newline s) [
  | true ↦ false
  | false ↦ matches fuel items (drop (width s) s)
]
matches zero (many ∷ items) s = matches zero items s
matches (suc fuel) (many ∷ items) s = elim (matches (suc fuel) items s) [
  | true ↦ true
  | false ↦ elim (is_empty s || is_newline s) [
    | true ↦ false
    | false ↦ matches fuel (many ∷ items) (drop (width s) s)
  ]
]

-- evalLikeSingle on the two texts
unfoldable pub like_texts : Bytes → Bytes → Run ℕ
unfolding like_items matches
like_texts val1 val2 = elim (like_items false val2) [
  | none ↦ fail
  | some items ↦ pure (if matches (length val1) items val1 then 1 else 0)
]

likes :
    (like_texts (str "hello") (str "h%l_") ≡ pure 1)
    × (like_texts (str "hello") (str "h_l") ≡ pure 0)
unfolding like_texts
likes = (refl, refl)
