-- ===== src/Strconv/Decimal.antt =====
-- What xmlrpc/xmlrpc.go uses of strconv: the decimal text of an integer of 32 bits.
use rosgo.Prelude.{
  ℕ, zero, suc, ◌+◌, ◌-◌, ◌*◌, ◌/◌, ◌%◌, ◌≤◌, ◌<◌, ◌≡◌, ◌≢◌, refl, sym, ap, ◌∙◌, true, false, inl,
  inr, Bool-cases, [], ◌∷◌, ◌++◌, Option, some, Bytes, ltb, ◌==◌, All, All-append, arith,
}
use rosgo.Prelude.Int.{ℤ, pos, negsuc, pos_part, neg_part}
use mathlib.Core.Path.{subst}
use rosgo.Strconv.{
  digits_of, decimal, format_int, digits_in, Before, nothing, digit, underscore, underscores_ok,
  parse_uint, within, plus, minus, parse_int0,
}

abbrev pub IsDigit : ℕ → Type 0
IsDigit c = (b'0' ≤ c) × (c ≤ b'9')

pub digit_step :
    (base n c : ℕ) (s : Bytes)
    → IsDigit c
    → base ≡ 10
    → digits_in base n (c ∷ s) ≡ digits_in base (n * 10 + (c - b'0')) s
unfolding digits_in
digit_step base n c s h e = ground arith

some_inj : (n v : ℕ) → ◌≡◌ {A = Option ℕ} (some n) (some v) → n ≡ v
some_inj n v h = cc

digits_in_snoc :
    (n v d : ℕ) (s : Bytes)
    → All IsDigit s
    → d < 10
    → digits_in 10 n s ≡ some v
    → digits_in 10 n (s ++ (b'0' + d) ∷ []) ≡ some (v * 10 + d)
digits_in_snoc n v d [] all h e =
    let same : n ≡ v = some_inj n v (unfold digits_in in e) in
    digit_step 10 n (b'0' + d) [] (omega arith, omega arith) refl
    ∙ unfold digits_in in ap some (omega (arith, same))
digits_in_snoc n v d (c ∷ s) all h e =
    digit_step 10 n c (s ++ (b'0' + d) ∷ []) all.0 refl
    ∙ digits_in_snoc (n * 10 + (c - b'0')) v d s all.1 h (sym (digit_step 10 n c s all.0 refl) ∙ e)

-- What the digits of a number are.
pub record Digits (n : ℕ) (s : Bytes) : Type 0 where
  pub digits : All IsDigit s
  pub value : digits_in 10 0 s ≡ some n
  pub head : ℕ
  pub tail : Bytes
  pub split : s ≡ head ∷ tail
  pub leading : 0 < n → head ≢ b'0'
  pub alone : n ≡ 0 → tail ≡ []

one_digit : (n : ℕ) → n < 10 → Digits n ((b'0' + n) ∷ [])
one_digit n h = record {
  digits = ((omega arith, omega arith), tt);
  value =
      digit_step 10 0 (b'0' + n) [] (omega arith, omega arith) refl
      ∙ unfold digits_in in ap some (omega arith);
  head = b'0' + n;
  tail = [];
  split = refl;
  leading = λ p. omega arith;
  alone = λ e. refl;
}

Digits-snoc :
    (n : ℕ) (s : Bytes) → 10 ≤ n → Digits (n / 10) s → Digits n (s ++ (b'0' + n % 10) ∷ [])
Digits-snoc n s h v = record {
  digits = All-append IsDigit s ((b'0' + n % 10) ∷ []) v.digits ((omega arith, omega arith), tt);
  value =
      digits_in_snoc 0 (n / 10) (n % 10) s v.digits (omega arith) v.value ∙ ap some (omega arith);
  head = v.head;
  tail = v.tail ++ (b'0' + n % 10) ∷ [];
  split = ap (λ t. t ++ (b'0' + n % 10) ∷ []) v.split;
  leading = λ p. v.leading (omega arith);
  alone = λ e. absurd (omega arith);
}

digits_of-Digits : (f n : ℕ) → n < f → Digits n (digits_of f n)
unfolding digits_of
digits_of-Digits zero n h = absurd (omega arith)
digits_of-Digits (suc f) n h = elim (Bool-cases (ltb n 10)) [
  | inl small ↦ rw small (one_digit n (ground (arith, small)))
  | inr big ↦ rw big (
      Digits-snoc n (digits_of f (n / 10)) (ground (arith, big))
        (digits_of-Digits f (n / 10) (ground (arith, big))))
]

digits_ok :
    (before : Before) (s : Bytes)
    → before ≢ underscore
    → All IsDigit s
    → underscores_ok false before s ≡ true
unfolding underscores_ok
digits_ok nothing [] h all = refl
digits_ok digit [] h all = refl
digits_ok underscore s h all = absurd (h refl)
digits_ok nothing (c ∷ s) h all = ground (arith, all.0, digits_ok digit s)
digits_ok digit (c ∷ s) h all = ground (arith, all.0, digits_ok digit s)

parse_uint-digits :
    (n c : ℕ) (t : Bytes)
    → All IsDigit (c ∷ t)
    → digits_in 10 0 (c ∷ t) ≡ some n
    → (0 < n → c ≢ b'0')
    → (n ≡ 0 → t ≡ [])
    → parse_uint (c ∷ t) ≡ some n
unfolding parse_uint
parse_uint-digits n c t all e lead alone = elim (Bool-cases (c == b'0')) [
  | inl here ↦
      let zero_n : n ≡ 0 = ground (arith, lead, here) in
      rw here (rw (alone zero_n) (unfold underscores_ok digits_in in ap some (sym zero_n)))
  | inr other ↦ rw other (rw (digits_ok nothing (c ∷ t) (λ q. cc) all) e)
]

plain :
    (bound c : ℕ) (t : Bytes)
    → IsDigit c
    → parse_int0 bound (c ∷ t) ≡ plus (within bound (parse_uint (c ∷ t)))
unfolding parse_int0
plain bound c t h = ground arith

in_range : (n bound : ℕ) → n < bound → ltb n bound ≡ true
in_range n bound h = ground arith

Digits-parse_uint : (n : ℕ) (s : Bytes) → Digits n s → parse_uint s ≡ some n
Digits-parse_uint n s v = rw v.split (
    parse_uint-digits n v.head v.tail (subst (All IsDigit) v.split v.digits)
      (subst (λ t. digits_in 10 0 t ≡ some n) v.split v.value) v.leading v.alone)

Digits-parse_int0 :
    (bound n : ℕ) (s : Bytes) → Digits n s → parse_int0 bound s ≡ plus (within bound (parse_uint s))
Digits-parse_int0 bound n s v =
    let all = subst (All IsDigit) v.split v.digits in rw v.split (plain bound v.head v.tail all.0)

pub decimal-Digits : (n : ℕ) → Digits n (decimal n)
unfolding decimal
decimal-Digits n = digits_of-Digits (suc n) n (omega arith)

-- FormatInt and ParseInt: an integer within the bound is read back from its text.
pub parse_int0-format_int :
    (bound : ℕ) (i : ℤ)
    → pos_part i < bound
    → neg_part i ≤ bound
    → parse_int0 bound (format_int i) ≡ some i
unfolding format_int
parse_int0-format_int bound (pos n) h g =
    Digits-parse_int0 bound n (decimal n) (decimal-Digits n)
    ∙ ap (λ o. plus (within bound o)) (Digits-parse_uint n (decimal n) (decimal-Digits n))
    ∙ rw (in_range n bound h) refl
parse_int0-format_int bound (negsuc n) h g =
    unfold parse_int0 in
    ap (λ o. minus (within (suc bound) o))
      (Digits-parse_uint (suc n) (decimal (suc n)) (decimal-Digits (suc n)))
    ∙ rw (in_range (suc n) (suc bound) (omega (arith, g))) refl

pub format_int-ne-nil : (i : ℤ) → format_int i ≢ []
unfolding format_int
format_int-ne-nil (pos n) e =
    let v = decimal-Digits n in let t : v.head ∷ v.tail ≡ [] = sym v.split ∙ e in cc
format_int-ne-nil (negsuc n) e = cc
