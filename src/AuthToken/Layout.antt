-- ===== src/AuthToken/Layout.antt =====
-- Reading the parts of a block of bytes that common/auth_token.go puts together.
use native.Mathlib.Numerals.{unary_clauses}
use wfc_server_private.AuthToken.{
  le_bytes, le_value, append_string, at_most, concat, slice, byte_at, trim_left, trim_right,
}
use wfc_server_private.GameSpy.{is_empty_text}
use wfc_server_private.Prelude.{
  ℕ, zero, suc, ◌+◌, ◌-◌, ◌*◌, ◌/◌, ◌^◌, ◌≤◌, ◌<◌, ◌≡◌, refl, sym, ap, subst, ◌∙◌, ◌⊎◌, inl, inr,
  false, List, [], ◌∷◌, ◌++◌, append-nil, arith, ltb, ◌==◌, Bytes, Bool-cases, if_induction, if_yes,
  if_no, length, take, drop, replicate, All, length-append, length-replicate, drop-append,
}

module _ {ℓ} {A : Type ℓ} where
  pub take_all : (xs : List A) → take (length xs) xs ≡ xs
  take_all [] = refl
  take_all (x ∷ xs) = ap (λ (l : List A). x ∷ l) (take_all xs)

  pub take-append : (n : ℕ) (xs ys : List A) → n ≤ length xs → take n (xs ++ ys) ≡ take n xs
  take-append zero xs ys h = refl
  take-append (suc n) [] ys h = absurd (omega arith)
  take-append (suc n) (x ∷ xs) ys h = ap (λ (l : List A). x ∷ l) (take-append n xs ys (omega arith))

  pub take-take : (m n : ℕ) (xs : List A) → m ≤ n → take m (take n xs) ≡ take m xs
  take-take zero n xs h = refl
  take-take (suc m) zero xs h = absurd (omega arith)
  take-take (suc m) (suc n) [] h = refl
  take-take (suc m) (suc n) (x ∷ xs) h = ap (λ (l : List A). x ∷ l) (take-take m n xs (omega arith))

  pub length-take : (n : ℕ) (xs : List A) → n ≤ length xs → length (take n xs) ≡ n
  length-take zero xs h = refl
  length-take (suc n) [] h = absurd (omega arith)
  length-take (suc n) (x ∷ xs) h = ap suc (length-take n xs (omega arith))

pub length-le_bytes : (n v : ℕ) → length (le_bytes n v) ≡ n
unfolding le_bytes
length-le_bytes zero v = refl
length-le_bytes (suc n) v = ap suc (length-le_bytes n (v / 256))

pub le_value-le_bytes : (n v : ℕ) → v < 256 ^ n → le_value (le_bytes n v) ≡ v
unfolding le_bytes le_value
le_value-le_bytes zero v h = omega arith
le_value-le_bytes (suc n) v h =
    let e : 256 ^ suc n ≡ 256 ^ n * 256 = simp unary_clauses in
    let small : v / 256 < 256 ^ n = omega (arith, e) in
    omega (arith, le_value-le_bytes n (v / 256) small)

pub length-append_string : (text : Bytes) (n : ℕ) → length (append_string text n) ≡ n
unfolding append_string
length-append_string text n =
    let zeros : List ℕ = replicate (n - length text) 0 in
    let size : length zeros ≡ n - length text = length-replicate (n - length text) 0 in
    if_induction (λ (s : Bytes). length s ≡ n) (ltb (length text) n) (text ++ zeros) (take n text)
      (λ e.
        let less : length text < n = ground arith in omega (arith, length-append text zeros, size))
      (λ e. length-take n text (ground arith))

-- What a read of no more bytes than were put there finds of a text.
pub take-append_string :
    (text : Bytes) (n m : ℕ) → m ≤ n → m ≤ length text → take m (append_string text n) ≡ take m text
unfolding append_string
take-append_string text n m small short_enough =
    if_induction (λ (s : Bytes). take m s ≡ take m text) (ltb (length text) n) _ _
      (λ _. take-append m text (replicate (n - length text) 0) short_enough)
      (λ _. take-take m n text small)

pub take_more : (n : ℕ) (text : Bytes) → length text ≤ n → take n text ≡ text
take_more zero [] h = refl
take_more zero (c ∷ s) h = absurd (omega arith)
take_more (suc n) [] h = refl
take_more (suc n) (c ∷ s) h = ap (λ (l : Bytes). c ∷ l) (take_more n s (omega arith))

at_most_least : (a b : ℕ) → (a ≤ b) × (at_most a b ≡ a) ⊎ (b ≤ a) × (at_most a b ≡ b)
unfolding at_most
at_most_least a b = elim (Bool-cases (ltb a b)) [
  | inl e ↦ inl (ground arith, if_yes (ltb a b) a b e)
  | inr e ↦ inr (ground arith, if_no (ltb a b) a b e)
]

-- A text is read by the length that was written before it.
pub read_text :
    (text : Bytes) (n : ℕ)
    → take (at_most (at_most (length text) n) n) (append_string text n) ≡ take n text
read_text text n = elim (at_most_least (length text) n) [
  | inl (h, e) ↦ elim (at_most_least (length text) n) [
    | inl (_, e') ↦
        rw (e, e')
          (take-append_string text n (length text) h (omega arith)
            ∙ take_more (length text) text (omega arith)
            ∙ sym (take_more n text h))
    | inr (h', _) ↦
        let k : length text ≡ n = omega arith in
        rw (e) (
          ap (λ (m : ℕ). take m (append_string text n)) (least_same (length text) n k)
          ∙ take-append_string text n n (omega arith) (omega arith))
  ]
  | inr (h, e) ↦ rw e (
      ap (λ (m : ℕ). take m (append_string text n)) (least_same n n refl)
      ∙ take-append_string text n n (omega arith) h)
]
  where
    least_same : (a b : ℕ) → a ≡ b → at_most a b ≡ b
    least_same a b k = elim (at_most_least a b) [ inl (_, e) ↦ e ∙ k | inr (_, e) ↦ e ]

-- the element of a list of fields, and a sum of widths
abbrev pub nth {ℓ} : {A : Type ℓ} → A → ℕ → List A → A
nth d i [] = d
nth d zero (x ∷ xs) = x
nth d (suc i) (x ∷ xs) = nth d i xs

abbrev pub total : List ℕ → ℕ
total [] = 0
total (n ∷ ns) = n + total ns

abbrev pub widths : List Bytes → List ℕ
widths [] = []
widths (f ∷ fs) = length f ∷ widths fs

pub length-concat : (fs : List Bytes) → length (concat fs) ≡ total (widths fs)
unfolding concat
length-concat [] = refl
length-concat (f ∷ fs) = omega (arith, length-append f (concat fs), length-concat fs)

field_here :
    (fs : List Bytes) (i m : ℕ)
    → m ≤ nth 0 i (widths fs)
    → take m (drop (total (take i (widths fs))) (concat fs)) ≡ take m (nth [] i fs)
unfolding concat
field_here [] i zero h = refl
field_here [] i (suc m) h = absurd (omega arith)
field_here (f ∷ fs) zero m h = take-append m f (concat fs) h
field_here (f ∷ fs) (suc i) m h =
    ap (take m) (drop-append f (concat fs) (total (take i (widths fs)))) ∙ field_here fs i m h

-- A slice from where a field begins reads the front of that field.
pub slice-field :
    (fs : List Bytes) (ws : List ℕ)
    → widths fs ≡ ws
    → (i to : ℕ) → to - total (take i ws) ≤ nth 0 i ws
    → slice (concat fs) (total (take i ws)) to ≡ take (to - total (take i ws)) (nth [] i fs)
unfolding slice
slice-field fs ws e i to =
    subst
      (λ (v : List ℕ).
        to - total (take i v) ≤ nth 0 i v
        → slice (concat fs) (total (take i v)) to ≡ take (to - total (take i v)) (nth [] i fs))
      e (field_here fs i (to - total (take i (widths fs))))

-- The byte of a field of one byte.
pub byte_at-field :
    (fs : List Bytes) (ws : List ℕ)
    → widths fs ≡ ws
    → (i n : ℕ) → nth 0 i ws ≡ 1
    → nth [] i fs ≡ n ∷ []
    → byte_at (concat fs) (total (take i ws)) ≡ n
unfolding byte_at le_value
byte_at-field fs ws e i n one it =
    let at = total (take i ws) in
    let size : at + 1 - at ≡ 1 = omega arith in
    ap le_value (
      slice-field fs ws e i (at + 1) (omega (arith, one))
      ∙ ap (λ (m : ℕ). take m (nth [] i fs)) size
      ∙ ap (take 1) it)
    ∙ omega arith

trim_right-zeros : (n k : ℕ) → trim_right (take n (replicate k 0)) ≡ []
unfolding trim_right is_empty_text
trim_right-zeros zero k = refl
trim_right-zeros (suc n) zero = refl
trim_right-zeros (suc n) (suc k) = rw (trim_right-zeros n k) refl

-- No byte of the text is zero.
abbrev pub IsNonzero : Bytes → Type 0
IsNonzero s = All (λ c. (c == 0) ≡ false) s

trim_right-padded :
    (n k : ℕ) (s : Bytes) → IsNonzero s → trim_right (take n (s ++ replicate k 0)) ≡ take n s
unfolding trim_right
trim_right-padded zero k s h = refl
trim_right-padded (suc n) k [] h = trim_right-zeros (suc n) k
trim_right-padded (suc n) k (c ∷ s) (h, hs) = rw (trim_right-padded n k s hs, h) refl

-- What a text that is filled up with zeros reads as, where it has none itself and is not empty.
pub trimmed :
    (s : Bytes) (n m : ℕ)
    → 0 < m
    → m ≤ n
    → IsNonzero s
    → is_empty_text s ≡ false
    → trim_right (trim_left (take m (append_string s n))) ≡ take m s
unfolding append_string trim_left is_empty_text
trimmed [] n m some_bytes h nonzero filled = cc
trimmed (c ∷ s) n zero some_bytes h nonzero filled = absurd (omega arith)
trimmed (c ∷ s) n (suc m) some_bytes h (hc, hs) filled =
    if_induction (λ (x : Bytes). trim_right (trim_left (take (suc m) x)) ≡ take (suc m) (c ∷ s))
      (ltb (length (c ∷ s)) n) _ _
      (λ _. rw hc (trim_right-padded (suc m) (n - length (c ∷ s)) (c ∷ s) (hc, hs)))
      (λ _.
        ap (λ (x : Bytes). trim_right (trim_left x)) (take-take (suc m) n (c ∷ s) h)
        ∙ rw hc (
            ap (λ (x : Bytes). trim_right (take (suc m) x)) (sym (append-nil (c ∷ s)))
            ∙ trim_right-padded (suc m) 0 (c ∷ s) (hc, hs)))

pub at_most_bound : (a b : ℕ) → at_most a b ≤ b
at_most_bound a b = elim (at_most_least a b) [
  | inl (h, e) ↦ omega (arith, e)
  | inr (h, e) ↦ omega (arith, e)
]
