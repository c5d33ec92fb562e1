-- ===== src/AuthToken/RoundTrip.antt =====
-- The round trips of the tokens of common/auth_token.go.
use wfc_server_private.AuthToken.{
  Codec, NasAuthToken, le_bytes, le_value, append_string, at_most, stored_version, concat,
  token_fields, marshal_nas_auth_token, slice, byte_at, trim_left, trim_right, read_token,
  unmarshal_nas_auth_token, marshal_gpcm_login_ticket, unmarshal_gpcm_login_ticket,
}
use wfc_server_private.AuthToken.Layout.{
  length-take, length-le_bytes, le_value-le_bytes, length-append_string, take-append_string,
  take_more, read_text, nth, total, widths, length-concat, slice-field, byte_at-field, IsNonzero,
  trimmed, at_most_bound,
}
use wfc_server_private.GameSpy.{has_prefix, is_empty_text}
use wfc_server_private.Prelude.{
  ℕ, suc, ◌+◌, ◌-◌, ◌%◌, ◌^◌, ◌≤◌, ◌<◌, ◌≡◌, refl, sym, ap, ◌∙◌, Bool, true, false, not, some, List,
  [], ◌∷◌, ◌++◌, append-nil, arith, ◌==◌, if◌then◌else◌, Bytes, str, str_eq, str_eq_refl,
  if_induction, if_no, length, take,
}

-- What is documented of the codec: base64 text decodes to the bytes that it was made of; decryption undoes
-- encryption of whole blocks, which keeps the length.
pub record IsCodec (codec : Codec) : Type 0 where
  pub decoded : (b : Bytes) → codec.decode_base64 (codec.encode_base64 b) ≡ some b
  pub decrypted : (b : Bytes) → length b % 16 ≡ 0 → codec.decrypt (codec.encrypt b) ≡ b
  pub same_size : (b : Bytes) → length (codec.encrypt b) ≡ length b

-- The texts of fixed length have it, the numbers fit their fields, and the version has no zero byte.
pub record IsToken (t : NasAuthToken) : Type 0 where
  pub time_fits : t.issue_time < 2 ^ 64
  pub gamecd : length t.gamecd ≡ 4
  pub userid_fits : t.userid < 2 ^ 48
  pub cfc_fits : t.cfc < 2 ^ 56
  pub challenge : length t.challenge ≡ 8
  pub version : IsNonzero (stored_version t)

-- What a token keeps: texts up to their fields' sizes, and the version up to fourteen bytes.
abbrev pub kept : NasAuthToken → NasAuthToken
kept t = record t {
  gsbrcd = take 16 t.gsbrcd;
  ingamesn = take 75 t.ingamesn;
  ctgpver = take 14 (stored_version t);
}

abbrev sizes : List ℕ
sizes = 8 ∷ 4 ∷ 6 ∷ 1 ∷ 16 ∷ 7 ∷ 1 ∷ 1 ∷ 1 ∷ 75 ∷ 8 ∷ 1 ∷ 1 ∷ 1 ∷ 15 ∷ 14 ∷ []

stored_version-filled : (t : NasAuthToken) → is_empty_text (stored_version t) ≡ false
unfolding stored_version is_empty_text
stored_version-filled t =
    let version = if str_eq t.gamecd (str "RMC") then str "1031044" else t.ctgpver in
    if_induction (λ (s : Bytes). is_empty_text s ≡ false) (is_empty_text version) (str "NOTPEDO")
      version (λ _. refl) (λ e. e)

flag_read : (b : Bool) → ((if b then 1 else 0) == 1) ≡ b
flag_read true = refl
flag_read false = refl

module _ (mark : Bytes) (sized : length mark ≡ 14) (t : NasAuthToken) (fits : IsToken t) where
  abbrev fields : List Bytes
  fields = token_fields mark t

  widths-fields : widths fields ≡ sizes
  unfolding token_fields
  widths-fields = simp (length-le_bytes, length-append_string, fits.challenge, sized)

  length-blob : length (concat fields) ≡ 160
  length-blob = length-concat fields ∙ ap total widths-fields

  magic_read : slice (concat fields) 0x92 0xA0 ≡ mark
  unfolding token_fields
  magic_read =
      slice-field fields sizes widths-fields 15 0xA0 (omega arith)
      ∙ take_more 14 mark (omega (arith, sized))

  number_read : (n v : ℕ) → v < 256 ^ n → le_value (take n (le_bytes n v)) ≡ v
  number_read n v h =
      ap le_value (take_more n (le_bytes n v) (omega (arith, length-le_bytes n v)))
      ∙ le_value-le_bytes n v h

  -- A text behind its length.
  text_read :
      (i n : ℕ) (text : Bytes)
      → byte_at (concat fields) (total (take i sizes)) ≡ at_most (length text) n
      → nth [] (suc i) fields ≡ append_string text n
      → nth 0 (suc i) sizes ≡ n
      → let k = at_most (byte_at (concat fields) (total (take i sizes))) n in
        slice (concat fields) (total (take (suc i) sizes)) (total (take (suc i) sizes) + k)
        ≡ take n text
  text_read i n text counted stored size =
      let k = at_most (byte_at (concat fields) (total (take i sizes))) n in
      let from = total (take (suc i) sizes) in
      let bound : k ≤ n = at_most_bound (byte_at (concat fields) (total (take i sizes))) n in
      let width : from + k - from ≡ k = omega arith in
      slice-field fields sizes widths-fields (suc i) (from + k) (omega (arith, size, bound))
      ∙ ap (λ (m : ℕ). take m (nth [] (suc i) fields)) width
      ∙ ap (take k) stored
      ∙ ap (λ (m : ℕ). take (at_most m n) (append_string text n)) counted
      ∙ read_text text n

  read_token-fields : read_token (concat fields) ≡ kept t
  unfolding read_token token_fields
  read_token-fields =
      let at = slice-field fields sizes widths-fields in
      let byte = byte_at-field fields sizes widths-fields in
      simp (
        (ap le_value (at 0 0x8 (omega arith)) ∙ number_read 8 t.issue_time fits.time_fits),
        (at 1 0xC (omega arith)
            ∙ take-append_string t.gamecd 4 4 (omega arith) (omega (arith, fits.gamecd))
            ∙ take_more 4 t.gamecd (omega (arith, fits.gamecd))),
        (ap le_value (at 2 0x12 (omega arith)) ∙ number_read 6 t.userid fits.userid_fits),
        text_read 3 16 t.gsbrcd (byte 3 (at_most (length t.gsbrcd) 16) refl refl) refl refl,
        (ap le_value (at 5 0x2A (omega arith)) ∙ number_read 7 t.cfc fits.cfc_fits),
        byte 6 t.region refl refl,
        byte 7 t.lang refl refl,
        text_read 8 75 t.ingamesn (byte 8 (at_most (length t.ingamesn) 75) refl refl) refl refl,
        (at 10 0x80 (omega arith) ∙ take_more 8 t.challenge (omega (arith, fits.challenge))),
        byte 11 t.unitcd refl refl,
        flag_read t.is_localhost,
        byte 12 (if t.is_localhost then 1 else 0) refl refl,
        (ap (λ (s : Bytes). trim_right (trim_left s)) (at 14 0x91 (omega arith))
            ∙ trimmed (stored_version t) 15 14 (omega arith) (omega arith) fits.version
                (stored_version-filled t)),
      )

-- With a codec that does what is documented and a magic value of fourteen bytes: the token that is made of
-- fields that fit is accepted, and gives them back, but that the texts are cut to their sizes and the version
-- is the one that is stored, cut to fourteen bytes.
pub unmarshal-marshal :
    (codec : Codec) (t : NasAuthToken)
    → IsCodec codec
    → length codec.magic ≡ 14
    → IsToken t
    → unmarshal_nas_auth_token codec (marshal_nas_auth_token codec t) ≡ some (kept t)
unfolding unmarshal_nas_auth_token marshal_nas_auth_token has_prefix
unmarshal-marshal codec t works sized fits =
    let blob = concat (token_fields codec.magic t) in
    let size : length blob ≡ 160 = length-blob codec.magic sized t fits in
    let whole : length blob % 16 ≡ 0 = rw size refl in
    let right_size : (length (codec.encrypt blob) == 0xA0) ≡ true =
      rw (works.same_size blob, size) refl in
    let start : 0xA0 - length codec.magic ≡ 0x92 = omega (arith, sized) in
    let right_magic : str_eq (slice blob (0xA0 - length codec.magic) 0xA0) codec.magic ≡ true =
      rw (start, magic_read codec.magic sized t fits) (str_eq_refl codec.magic) in
    rw (works.decoded (codec.encrypt blob), right_size, works.decrypted blob whole, right_magic)
      (ap (λ (x : NasAuthToken). some x) (read_token-fields codec.magic sized t fits))

-- A version of fifteen bytes, which a token has room for, comes back with fourteen.
pub long_version_cut :
    (codec : Codec) (t : NasAuthToken)
    → IsCodec codec
    → length codec.magic ≡ 14
    → IsToken t
    → length (stored_version t) ≡ 15
    → (back : NasAuthToken) × (unmarshal_nas_auth_token codec (marshal_nas_auth_token codec t)
        ≡ some back)
      × (length back.ctgpver ≡ 14)
long_version_cut codec t works sized fits long = (
  kept t,
  unmarshal-marshal codec t works sized fits,
  length-take 14 (stored_version t) (omega (arith, long)),
)

-- A login ticket gives back its profile id and its time, with a magic value of four bytes.
pub login_ticket-round_trip :
    (codec : Codec) (now profile_id : ℕ)
    → IsCodec codec
    → length codec.magic ≡ 4
    → now < 2 ^ 64
    → profile_id < 2 ^ 32
    → unmarshal_gpcm_login_ticket codec (marshal_gpcm_login_ticket codec now profile_id)
      ≡ some (profile_id, now)
unfolding unmarshal_gpcm_login_ticket marshal_gpcm_login_ticket concat
login_ticket-round_trip codec now profile_id works sized time_fits pid_fits =
    let fs = le_bytes 8 now ∷ le_bytes 4 profile_id ∷ codec.magic ∷ [] in
    let blob = le_bytes 8 now ++ (le_bytes 4 profile_id ++ codec.magic) in
    let same : concat fs ≡ blob = rw (append-nil codec.magic) refl in
    let ws : widths fs ≡ 8 ∷ 4 ∷ 4 ∷ [] = simp (length-le_bytes, sized) in
    let size : length blob ≡ 16 = ap length (sym same) ∙ length-concat fs ∙ ap total ws in
    let whole : length blob % 16 ≡ 0 = rw size refl in
    let right_size : (length (codec.encrypt blob) == 0x10) ≡ true =
      rw (works.same_size blob, size) refl in
    let at = slice-field fs (8 ∷ 4 ∷ 4 ∷ []) ws in
    let magic_part : slice blob 0xC 0x10 ≡ codec.magic =
      ap (λ (b : Bytes). slice b 0xC 0x10) (sym same)
      ∙ at 2 0x10 (omega arith)
      ∙ take_more 4 codec.magic (omega (arith, sized)) in
    let right_magic : str_eq (slice blob 0xC 0x10) codec.magic ≡ true =
      rw magic_part (str_eq_refl codec.magic) in
    let pid_part : le_value (slice blob 0x8 0xC) ≡ profile_id =
      ap (λ (b : Bytes). le_value (slice b 0x8 0xC)) (sym same)
      ∙ ap le_value (
          at 1 0xC (omega arith)
          ∙ take_more 4 (le_bytes 4 profile_id) (omega (arith, length-le_bytes 4 profile_id)))
      ∙ le_value-le_bytes 4 profile_id pid_fits in
    let time_part : le_value (slice blob 0x0 0x8) ≡ now =
      ap (λ (b : Bytes). le_value (slice b 0x0 0x8)) (sym same)
      ∙ ap le_value (
          at 0 0x8 (omega arith)
          ∙ take_more 8 (le_bytes 8 now) (omega (arith, length-le_bytes 8 now)))
      ∙ le_value-le_bytes 8 now time_fits in
    rw (works.decoded (codec.encrypt blob), unmarshal_gpcm_login_ticket)
      (if_no (not (length (codec.encrypt blob) == 0x10)) _ _ (ground (arith, right_size))
        ∙ rw (works.decrypted blob whole) (
            if_no (not (str_eq (slice blob 0xC 0x10) codec.magic)) _ _ (ground (arith, right_magic))
            ∙ rw (pid_part, time_part) refl))
