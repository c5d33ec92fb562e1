-- ===== src/GameSpy/RoundTrip.antt =====
-- CreateGameSpyMessage and then ParseGameSpyMessage (common/gamespy_message.go).
use wfc_server_private.GameSpy.{
  GameSpyCommand, backslash, final_mark, has_prefix, contains_sub, cut, is_open, is_empty_text,
  no_command, add_pair, next_value, parse_pairs, parse_commands, parse_gamespy_message,
  without_backslash, print_values, create_gamespy_message,
}
use wfc_server_private.Prelude.{
  ℕ, zero, suc, ◌+◌, ◌≤◌, ◌<◌, ◌≡◌, refl, ◌∙◌, Bool, true, false, none, some, List, [], ◌∷◌, ◌++◌,
  append-nil, append_assoc, arith, ◌==◌, Bytes, str, str_eq, ==_refl, length, All, length-append,
}
use wfc_server_private.Prelude.Dict.{lookup, assign_new}
use wfc_server_private.Prelude.Outcome.{ok}

-- A text with no backslash.
abbrev pub IsPlain : Bytes → Type 0
IsPlain s = All (λ c. (c == backslash) ≡ false) s

-- A key that a message can carry.
pub record IsKey (k : Bytes) : Type 0 where
  pub plain : IsPlain k
  pub filled : is_empty_text k ≡ false
  pub not_final : str_eq k (str "final") ≡ false

-- No key stands in the map already, or twice.
abbrev pub AreNew : List (Bytes × Bytes) → List (Bytes × Bytes) → Type 0
AreNew m [] = Unit
AreNew m ((k, v) ∷ values_left) = (lookup k m ≡ none) × AreNew (m ++ ((k, v) ∷ [])) values_left

-- A command that a message can carry.
pub record IsMessage (c : GameSpyCommand) : Type 0 where
  pub command : IsKey c.command
  pub command_value : IsPlain c.command_value
  pub other_values : All (λ (p : Bytes × Bytes). IsKey p.0 × IsPlain p.1) c.other_values
  pub distinct : AreNew [] c.other_values

cut-plain : (t s : Bytes) → IsPlain t → cut (t ++ (backslash ∷ s)) ≡ some (t, backslash ∷ s)
unfolding cut
cut-plain [] s h = refl
cut-plain (c ∷ t) s (h, hs) = simp (h, cut-plain t s hs)

without_backslash-plain : (t : Bytes) → IsPlain t → without_backslash t ≡ t
unfolding without_backslash
without_backslash-plain [] h = refl
without_backslash-plain (c ∷ t) (h, hs) = simp (h, without_backslash-plain t hs)

-- the pairs of a message and what stands behind them
abbrev ended : List (Bytes × Bytes) → Bytes → Bytes
ended pairs rest = print_values pairs ++ (final_mark ++ rest)

next_value-plain :
    (v s : Bytes) → IsPlain v → next_value (v ++ (backslash ∷ s)) ≡ (v, backslash ∷ s)
unfolding next_value
next_value-plain v s h = rw (cut-plain v s h, next_value) refl

-- One plain pair is read off the front.
parse_pair :
    (fuel : ℕ) (k v behind : Bytes) (found_command : Bool) (g : GameSpyCommand)
    → IsKey k
    → IsPlain v
    → parse_pairs
        (suc fuel)
        (backslash ∷ (k ++ (backslash ∷ (v ++ (backslash ∷ behind)))))
        found_command
        g
      ≡ parse_pairs fuel (backslash ∷ behind) true (add_pair found_command k v g)
unfolding parse_pairs
parse_pair fuel k v behind found_command g key plain =
    simp (cut-plain k (v ++ (backslash ∷ behind)) key.plain, key.filled, key.not_final)
      (rw (next_value-plain v behind plain) refl)

-- What follows a value begins with a backslash.
ended-opens :
    (pairs : List (Bytes × Bytes)) (rest : Bytes) → (s : Bytes) × (ended pairs rest ≡ backslash ∷ s)
unfolding print_values
ended-opens [] rest = (_, refl)
ended-opens ((k, v) ∷ pairs) rest = (_, refl)

-- The end of a message.
parse_end :
    (fuel : ℕ) (rest : Bytes) (found_command : Bool) (g : GameSpyCommand)
    → parse_pairs (suc fuel) (ended [] rest) found_command g ≡ ok (g, rest)
unfolding parse_pairs print_values
parse_end fuel rest found_command g = refl

ended-cons :
    (k v : Bytes) (pairs : List (Bytes × Bytes)) (rest : Bytes)
    → IsPlain k
    → IsPlain v
    → ended ((k, v) ∷ pairs) rest ≡ backslash ∷ (k ++ (backslash ∷ (v ++ ended pairs rest)))
unfolding print_values
ended-cons k v pairs rest hk hv =
    simp (without_backslash-plain k hk, without_backslash-plain v hv, append_assoc)

-- A new key is added behind the others.
add_pair-new :
    (k v : Bytes) (g : GameSpyCommand)
    → lookup k g.other_values ≡ none
    → add_pair true k v g ≡ record g { other_values = g.other_values ++ ((k, v) ∷ []) }
unfolding add_pair
add_pair-new k v g new = rw (assign_new k v g.other_values new) refl

parse-print_values :
    (fuel : ℕ) (pairs : List (Bytes × Bytes)) (rest : Bytes) (g : GameSpyCommand)
    → length pairs < fuel
    → All (λ (p : Bytes × Bytes). IsKey p.0 × IsPlain p.1) pairs
    → AreNew g.other_values pairs
    → parse_pairs fuel (ended pairs rest) true g
      ≡ ok (record g { other_values = g.other_values ++ pairs }, rest)
parse-print_values zero pairs rest g size h fresh = absurd (omega arith)
parse-print_values (suc fuel) [] rest g size h fresh =
    parse_end fuel rest true g ∙ rw append-nil refl
parse-print_values (suc fuel) ((k, v) ∷ pairs) rest g size ((key, plain), hs) (new, fresh) =
    let (s, opens) = ended-opens pairs rest in
    let g' = record g { other_values = g.other_values ++ ((k, v) ∷ []) } in
    let more : parse_pairs fuel (backslash ∷ s) true g'
        ≡ ok (record g { other_values = g.other_values ++ ((k, v) ∷ pairs) }, rest) =
      rw (← opens)
        (parse-print_values fuel pairs rest g' (omega arith) hs fresh ∙ rw append_assoc refl) in
    rw (ended-cons k v pairs rest key.plain plain, opens)
      (parse_pair fuel k v s true g key plain ∙ rw (add_pair-new k v g new) more)

created :
    (c : GameSpyCommand) (rest : Bytes)
    → IsMessage c
    → create_gamespy_message c ++ rest
      ≡ backslash ∷ (c.command ++ (backslash ∷ (c.command_value ++ ended c.other_values rest)))
unfolding create_gamespy_message
created c rest h = simp (h.command.filled, append_assoc)

-- One message and what stands behind it.
parse-create :
    (fuel : ℕ) (c : GameSpyCommand) (rest : Bytes)
    → IsMessage c
    → suc (length c.other_values) < fuel
    → parse_pairs fuel (create_gamespy_message c ++ rest) false no_command ≡ ok (c, rest)
unfolding add_pair
parse-create zero c rest h size = absurd (omega arith)
parse-create (suc fuel) c rest h size =
    let (s, opens) = ended-opens c.other_values rest in
    let g : GameSpyCommand = record {
      command = c.command;
      command_value = c.command_value;
      other_values = [];
    } in
    let more : parse_pairs fuel (backslash ∷ s) true g ≡ ok (c, rest) =
      rw (← opens)
        (parse-print_values fuel c.other_values rest g (omega arith) h.other_values h.distinct) in
    rw (created c rest h, opens)
      (parse_pair fuel c.command c.command_value s false no_command h.command h.command_value
        ∙ more)

-- several messages, one behind the other
abbrev pub stream : List GameSpyCommand → Bytes
stream [] = []
stream (c ∷ cs) = create_gamespy_message c ++ stream cs

has_prefix-append : (p s : Bytes) → has_prefix p (p ++ s) ≡ true
unfolding has_prefix
has_prefix-append [] s = refl
has_prefix-append (c ∷ p) s = rw (==_refl c) (has_prefix-append p s)

contains_sub-append : (s p t : Bytes) → contains_sub p (s ++ (p ++ t)) ≡ true
unfolding contains_sub
contains_sub-append [] [] [] = refl
contains_sub-append [] [] (x ∷ t) = refl
contains_sub-append [] (x ∷ p) t = ground (arith, has_prefix-append (x ∷ p) t)
contains_sub-append (c ∷ s) p t = ground (arith, contains_sub-append s p t)

created-marked :
    (c : GameSpyCommand) (rest : Bytes)
    → contains_sub final_mark (create_gamespy_message c ++ rest) ≡ true
unfolding create_gamespy_message
created-marked c rest = rw append_assoc (contains_sub-append _ final_mark rest)

print_values-length : (pairs : List (Bytes × Bytes)) → length pairs ≤ length (print_values pairs)
unfolding print_values
print_values-length [] = omega arith
print_values-length ((k, v) ∷ pairs) = omega (
  arith,
  length-append (without_backslash k) (backslash ∷ (without_backslash v ++ print_values pairs)),
  length-append (without_backslash v) (print_values pairs),
  print_values-length pairs,
)

-- a message takes more bytes than it has pairs
created-length :
    (c : GameSpyCommand) (rest : Bytes)
    → IsMessage c
    → suc (length c.other_values + length rest) < length (create_gamespy_message c ++ rest)
created-length c rest h = rw (created c rest h) (
    omega (
      arith,
      length-append c.command (backslash ∷ (c.command_value ++ ended c.other_values rest)),
      length-append c.command_value (ended c.other_values rest),
      length-append (print_values c.other_values) (final_mark ++ rest),
      print_values-length c.other_values,
    ))

created-opens :
    (c : GameSpyCommand) (rest : Bytes)
    → IsMessage c
    → is_open (create_gamespy_message c ++ rest) ≡ true
unfolding is_open
created-opens c rest h = rw (created c rest h) refl

stream-parses :
    (fuel : ℕ) (cs : List GameSpyCommand)
    → All IsMessage cs
    → length (stream cs) ≤ fuel
    → parse_commands fuel (stream cs) ≡ ok cs
unfolding parse_commands
stream-parses zero [] h size = refl
stream-parses zero (c ∷ cs) (h, hs) size = absurd (omega (arith, created-length c (stream cs) h))
stream-parses (suc fuel) [] h size = refl
stream-parses (suc fuel) (c ∷ cs) (h, hs) size =
    let long = created-length c (stream cs) h in
    simp (
      created-opens c (stream cs) h,
      created-marked c (stream cs),
      parse-create (length (create_gamespy_message c ++ stream cs)) c (stream cs) h (omega arith),
      stream-parses fuel cs hs (omega arith),
    )

-- Commands that messages can carry, one or more, written one behind the other are parsed to
-- themselves, with the same values in the same order.
pub parse_gamespy_message-create :
    (c : GameSpyCommand) (cs : List GameSpyCommand)
    → All IsMessage (c ∷ cs)
    → parse_gamespy_message (stream (c ∷ cs)) ≡ ok (c ∷ cs)
unfolding parse_gamespy_message
parse_gamespy_message-create c cs h =
    rw (created-marked c (stream cs)) (stream-parses _ (c ∷ cs) h (omega arith))
