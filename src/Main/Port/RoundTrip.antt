-- ===== src/Main/Port/RoundTrip.antt =====
-- strconv.Atoi after strconv.Itoa.
use Prim.Native.Nat.{◌%◌}
use capi_shell_mcp.Base.{
  ℕ, ◌+◌, ◌-◌, ◌*◌, ◌/◌, ◌<◌, ◌≤◌, suc, zero, GoString, [], ◌∷◌, itoa, digits, nat_beq, nat_beq_iff,
  Bool-cases, true, some, inl, inr, ◌≡◌, refl, arith, ◌∙◌, ap, All, ◌≢◌,
}
use capi_shell_mcp.Config.{pos}
use capi_shell_mcp.Main.Port.{atoi, read_digits, max_int, is_digit}

digit-IsDigit : (n : ℕ) → is_digit (b'0' + n % 10) ≡ true
digit-IsDigit n = ground arith

read_digit :
    (acc n : ℕ) (s : GoString)
    → read_digits acc ((b'0' + n % 10) ∷ s) ≡ read_digits (acc * 10 + n % 10) s
unfolding read_digits
read_digit acc n s =
    let same : acc * 10 + ((b'0' + n % 10) - b'0') ≡ acc * 10 + n % 10 = omega arith in
    rw (digit-IsDigit n) (ap (λ (a : ℕ). read_digits a s) same)

read_digits-digits :
    (fuel n : ℕ) (out : GoString) → n < fuel → read_digits 0 (digits fuel n out) ≡ read_digits n out
unfolding digits
read_digits-digits zero n out h = absurd (omega (arith, h))
read_digits-digits (suc fuel) n out h =
    let c = b'0' + n % 10 in
    let more = read_digits-digits fuel (n / 10) (c ∷ out) in
    elim (Bool-cases (nat_beq (n / 10) 0)) [
      | inl last ↦
          let same : 0 * 10 + n % 10 ≡ n = ground (arith, nat_beq_iff (n / 10) 0) in
          rw (last, digits) (read_digit 0 n out ∙ ap (λ (a : ℕ). read_digits a out) same)
      | inr longer ↦
          let same : n / 10 * 10 + n % 10 ≡ n = omega arith in
          let below : n / 10 < fuel = ground (arith, nat_beq_iff (n / 10) 0) in
          rw (longer, digits)
            (more below ∙ read_digit (n / 10) n out ∙ ap (λ (a : ℕ). read_digits a out) same)
    ]

abbrev pub AreDigits : GoString → Type 0
AreDigits = All (λ c. is_digit c ≡ true)

digits-AreDigits : (fuel n : ℕ) (out : GoString) → AreDigits out → AreDigits (digits fuel n out)
unfolding digits
digits-AreDigits zero n out h = h
digits-AreDigits (suc fuel) n out h = elim (Bool-cases (nat_beq (n / 10) 0)) [
  | inl last ↦ rw (last, digits) (digit-IsDigit n, h)
  | inr longer ↦
      rw (longer, digits)
        (digits-AreDigits fuel (n / 10) ((b'0' + n % 10) ∷ out) (digit-IsDigit n, h))
]

-- What Atoi makes of a text of digits.
atoi-digits :
    (s : GoString) (n : ℕ)
    → AreDigits s
    → s ≢ []
    → read_digits 0 s ≡ some n
    → n ≤ max_int
    → atoi s ≡ some (pos n)
unfolding atoi
atoi-digits [] n h full e le = absurd (full refl)
atoi-digits (c ∷ s) n (hc, h) full e le = ground (arith, nat_beq_iff c b'-', nat_beq_iff c b'+')

digits-ne-nil : (fuel n : ℕ) (out : GoString) → out ≢ [] → digits fuel n out ≢ []
unfolding digits
digits-ne-nil zero n out h = h
digits-ne-nil (suc fuel) n out h = elim (Bool-cases (nat_beq (n / 10) 0)) [
  | inl last ↦ rw (last, digits) (λ e. cc)
  | inr longer ↦ rw (longer, digits) (digits-ne-nil fuel (n / 10) _ (λ e. cc))
]

pub itoa-ne-nil : (n : ℕ) → itoa n ≢ []
unfolding itoa digits
itoa-ne-nil n = elim (Bool-cases (nat_beq (n / 10) 0)) [
  | inl last ↦ rw (last, itoa, digits) (λ e. cc)
  | inr longer ↦ rw (longer, itoa, digits) (digits-ne-nil n (n / 10) _ (λ e. cc))
]

pub atoi-itoa : (n : ℕ) → n ≤ max_int → atoi (itoa n) ≡ some (pos n)
unfolding itoa
atoi-itoa n h =
    atoi-digits (itoa n) n (digits-AreDigits (suc n) n [] tt) (itoa-ne-nil n)
      (read_digits-digits (suc n) n [] (omega arith) ∙ unfold read_digits in refl) h
