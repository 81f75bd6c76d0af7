-- ===== src/Strconv/Base64.antt =====
-- What xmlrpc/xmlrpc.go uses of encoding/base64: StdEncoding, with padding.
use rosgo.Prelude.{
  ℕ, ◌+◌, ◌-◌, ◌*◌, ◌/◌, ◌%◌, ◌<◌, ◌≡◌, ◌≢◌, refl, ap, ◌∙◌, false, ◌&&◌, ◌||◌, [], ◌∷◌, Option,
  none, some, Bytes, ltb, leb, ◌==◌, if◌then◌else◌, All, arith,
}

unfoldable pub char_of : ℕ → ℕ
char_of v =
    if ltb v 26
    then b'A' + v
    else if ltb v 52
    then b'a' + (v - 26)
    else if ltb v 62
    then b'0' + (v - 52)
    else if v == 62
    then b'+'
    else b'/'

unfoldable pub sextet : ℕ → Option ℕ
sextet c =
    if leb b'A' c && leb c b'Z'
    then some (c - b'A')
    else if leb b'a' c && leb c b'z'
    then some (c - b'a' + 26)
    else if leb b'0' c && leb c b'9'
    then some (c - b'0' + 52)
    else if c == b'+'
    then some 62
    else if c == b'/'
    then some 63
    else none

unfoldable pub encode : Bytes → Bytes
encode [] = []
encode (a ∷ []) = char_of (a / 4) ∷ char_of (a % 4 * 16) ∷ b'=' ∷ b'=' ∷ []
encode (a ∷ b ∷ []) =
    char_of (a / 4) ∷ char_of (a % 4 * 16 + b / 16) ∷ char_of (b % 16 * 4) ∷ b'=' ∷ []
encode (a ∷ b ∷ c ∷ s) =
    char_of (a / 4)
    ∷ char_of (a % 4 * 16 + b / 16)
    ∷ char_of (b % 16 * 4 + c / 64)
    ∷ char_of (c % 64)
    ∷ encode s

-- The bytes of a group of one, two or three, from its sextets.
abbrev pub one_byte : Option ℕ → Option ℕ → Option Bytes
one_byte (some p) (some q) = some ((p * 4 + q / 16) ∷ [])
one_byte _ _ = none

abbrev pub two_bytes : Option ℕ → Option ℕ → Option ℕ → Option Bytes
two_bytes (some p) (some q) (some r) = some ((p * 4 + q / 16) ∷ (q % 16 * 16 + r / 4) ∷ [])
two_bytes _ _ _ = none

abbrev pub three_bytes : Option ℕ → Option ℕ → Option ℕ → Option ℕ → Option Bytes → Option Bytes
three_bytes (some p) (some q) (some r) (some t) (some s) =
    some ((p * 4 + q / 16) ∷ (q % 16 * 16 + r / 4) ∷ (r % 4 * 64 + t) ∷ s)
three_bytes _ _ _ _ _ = none

abbrev pub last_group : ℕ → ℕ → ℕ → ℕ → Option Bytes
last_group p q r t =
    if t == b'='
    then (if r == b'='
        then one_byte (sextet p) (sextet q)
        else two_bytes (sextet p) (sextet q) (sextet r))
    else three_bytes (sextet p) (sextet q) (sextet r) (sextet t) (some [])

-- The groups of four; padding stands in the last of them.
unfoldable pub groups : Bytes → Option Bytes
groups [] = some []
groups (p ∷ q ∷ r ∷ t ∷ []) = last_group p q r t
groups (p ∷ q ∷ r ∷ t ∷ u ∷ s) =
    three_bytes (sextet p) (sextet q) (sextet r) (sextet t) (groups (u ∷ s))
groups _ = none

-- Ends of lines are passed over.
unfoldable pub without_newlines : Bytes → Bytes
without_newlines [] = []
without_newlines (c ∷ s) =
    let rest = without_newlines s in if c == b'\n' || c == b'\r' then rest else c ∷ rest

unfoldable pub decode : Bytes → Option Bytes
decode s = groups (without_newlines s)

sextet-char_of : (v : ℕ) → v < 64 → sextet (char_of v) ≡ some v
unfolding sextet char_of
sextet-char_of v h = ground arith

char_of_plain : (v : ℕ) → ((char_of v == b'\n') || (char_of v == b'\r')) ≡ false
unfolding char_of
char_of_plain v = ground arith

char_of_padding : (v : ℕ) → (char_of v == b'=') ≡ false
unfolding char_of
char_of_padding v = ground arith

one_back : (a : ℕ) → a < 256 → groups (encode (a ∷ [])) ≡ some (a ∷ [])
unfolding groups encode
one_back a h =
    rw (sextet-char_of (a / 4) (omega arith), sextet-char_of (a % 4 * 16) (omega arith))
      (ap (λ x. some (x ∷ [])) (omega arith))

two_back : (a b : ℕ) → a < 256 → b < 256 → groups (encode (a ∷ b ∷ [])) ≡ some (a ∷ b ∷ [])
unfolding groups encode
two_back a b h g =
    let ea : a / 4 * 4 + (a % 4 * 16 + b / 16) / 16 ≡ a = omega arith in
    let eb : (a % 4 * 16 + b / 16) % 16 * 16 + (b % 16 * 4) / 4 ≡ b = omega arith in
    rw (
      char_of_padding (b % 16 * 4),
      sextet-char_of (a / 4) (omega arith),
      sextet-char_of (a % 4 * 16 + b / 16) (omega arith),
      sextet-char_of (b % 16 * 4) (omega arith),
      ea,
      eb,
    )

groups_onward :
    (p q r v : ℕ) (s bs : Bytes)
    → groups s ≡ some bs
    → v < 64
    → groups (p ∷ q ∷ r ∷ char_of v ∷ s)
      ≡ three_bytes (sextet p) (sextet q) (sextet r) (sextet (char_of v)) (some bs)
unfolding groups
groups_onward p q r v [] bs h g =
    rw (char_of_padding v)
      (ap (three_bytes (sextet p) (sextet q) (sextet r) (sextet (char_of v))) h)
groups_onward p q r v (u ∷ s) bs h g =
    ap (three_bytes (sextet p) (sextet q) (sextet r) (sextet (char_of v))) h

three_back :
    (a b c : ℕ) (s : Bytes)
    → a < 256
    → b < 256
    → c < 256
    → groups (encode s) ≡ some s
    → groups (encode (a ∷ b ∷ c ∷ s)) ≡ some (a ∷ b ∷ c ∷ s)
unfolding encode
three_back a b c s ha hb hc h =
    let ea : a / 4 * 4 + (a % 4 * 16 + b / 16) / 16 ≡ a = omega arith in
    let eb : (a % 4 * 16 + b / 16) % 16 * 16 + (b % 16 * 4 + c / 64) / 4 ≡ b = omega arith in
    let ec : (b % 16 * 4 + c / 64) % 4 * 64 + c % 64 ≡ c = omega arith in
    groups_onward (char_of (a / 4)) (char_of (a % 4 * 16 + b / 16)) (char_of (b % 16 * 4 + c / 64))
      (c % 64) (encode s) s h (omega arith)
    ∙ rw (
      sextet-char_of (a / 4) (omega arith),
      sextet-char_of (a % 4 * 16 + b / 16) (omega arith),
      sextet-char_of (b % 16 * 4 + c / 64) (omega arith),
      sextet-char_of (c % 64) (omega arith),
      ea,
      eb,
      ec,
    )

groups-encode : (s : Bytes) → All (λ b. b < 256) s → groups (encode s) ≡ some s
groups-encode [] h = unfold groups encode in refl
groups-encode (a ∷ []) h = one_back a h.0
groups-encode (a ∷ b ∷ []) h = two_back a b h.0 h.1.0
groups-encode (a ∷ b ∷ c ∷ s) h = three_back a b c s h.0 h.1.0 h.1.1.0 (groups-encode s h.1.1.1)

kept : (v : ℕ) (s : Bytes) → without_newlines (char_of v ∷ s) ≡ char_of v ∷ without_newlines s
unfolding without_newlines
kept v s = rw (char_of_plain v)

without_newlines-encode : (s : Bytes) → without_newlines (encode s) ≡ encode s
unfolding encode
without_newlines-encode [] = unfold without_newlines in refl
without_newlines-encode (a ∷ []) =
    kept (a / 4) _
    ∙ ap (◌∷◌ (char_of (a / 4))) (kept (a % 4 * 16) _ ∙ unfold without_newlines in refl)
without_newlines-encode (a ∷ b ∷ []) =
    rw (kept (a / 4) _, kept (a % 4 * 16 + b / 16) _, kept (b % 16 * 4) _)
      (unfold without_newlines in refl)
without_newlines-encode (a ∷ b ∷ c ∷ s) = rw (
  kept (a / 4) _,
  kept (a % 4 * 16 + b / 16) _,
  kept (b % 16 * 4 + c / 64) _,
  kept (c % 64) _,
  without_newlines-encode s,
)

-- DecodeString gives back the bytes that EncodeToString encoded.
pub decode-encode : (s : Bytes) → All (λ b. b < 256) s → decode (encode s) ≡ some s
unfolding decode
decode-encode s h = rw (without_newlines-encode s) (groups-encode s h)

pub encode-ne-nil : (s : Bytes) → s ≢ [] → encode s ≢ []
unfolding encode
encode-ne-nil [] h e = absurd (h refl)
encode-ne-nil (a ∷ []) h e = cc
encode-ne-nil (a ∷ b ∷ []) h e = cc
encode-ne-nil (a ∷ b ∷ c ∷ s) h e = cc
