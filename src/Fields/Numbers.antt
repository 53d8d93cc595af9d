-- ===== src/Fields/Numbers.antt =====
-- The numbers of magic fields.
use astro_cli.Fields.Json.{integer}
use astro_cli.Fields.Scan.{FieldError}
use astro_cli.Fields.Magic.{
  magic_field_value, digits, unsigned, positive, negative, atoi, plain_value,
}
use astro_cli.Prelude.Int.{ℤ, pos, negsuc}
use Prim.Native.Nat.{◌^◌, ◌/◌, ◌%◌}
use astro_cli.Prelude.{
  ok, Result, refl, ltb, ◌≤◌, if_intro, zero, ap, ◌∙◌, ◌-◌, [], none, suc, ◌∷◌, arith, ◌+◌, ◌*◌,
  some, ◌++◌, ◌<◌, Option, itoa, itoa_from, List, ℕ, ◌≡◌,
}

-- One more digit.
abbrev then_digit : Option ℕ → ℕ → Option ℕ
then_digit none d = none
then_digit (some n) d = some (n * 10 + d)

digits-snoc :
    (n : ℕ) (s : List ℕ) (d : ℕ)
    → d < 10
    → digits n (s ++ (b'0' + d) ∷ []) ≡ then_digit (digits n s) d
unfolding digits
digits-snoc n [] d h = ground arith
digits-snoc n (c ∷ s) d h = ground (arith, digits-snoc (n * 10 + (c - b'0')) s d h)

digits-itoa : (fuel n : ℕ) → n < fuel → digits 0 (itoa_from fuel n) ≡ some n
unfolding itoa_from digits
digits-itoa zero n h = absurd (omega arith)
digits-itoa (suc fuel) n h =
    if_intro (λ s. digits 0 s ≡ some n) (ltb n 10) (λ small. ground arith)
      (λ large.
        let le : n / 10 < fuel = ground arith in
        digits-snoc 0 (itoa_from fuel (n / 10)) (n % 10) (omega arith)
        ∙ ap (λ o. then_digit o (n % 10)) (digits-itoa fuel (n / 10) le)
        ∙ ap some (omega arith))

-- A number has a digit first.
IsDigits : List ℕ → Type 0
IsDigits [] = ⊥
IsDigits (c ∷ s) = (b'0' ≤ c) × (c ≤ b'9')

IsDigits-append : (s t : List ℕ) → IsDigits s → IsDigits (s ++ t)
unfolding IsDigits
IsDigits-append [] t h = absurd h
IsDigits-append (c ∷ s) t h = h

itoa-IsDigits : (fuel n : ℕ) → n < fuel → IsDigits (itoa_from fuel n)
unfolding itoa_from IsDigits
itoa-IsDigits zero n h = absurd (omega arith)
itoa-IsDigits (suc fuel) n h =
    if_intro IsDigits (ltb n 10) (λ small. (omega arith, ground arith))
      (λ large.
        IsDigits-append (itoa_from fuel (n / 10)) _ (itoa-IsDigits fuel (n / 10) (ground arith)))

atoi-IsDigits : (s : List ℕ) → IsDigits s → atoi s ≡ positive (digits 0 s)
unfolding atoi unsigned IsDigits
atoi-IsDigits [] h = absurd h
atoi-IsDigits (c ∷ s) (h, h') = ground arith

unsigned-IsDigits : (s : List ℕ) → IsDigits s → unsigned s ≡ digits 0 s
unfolding unsigned IsDigits
unsigned-IsDigits [] h = absurd h
unsigned-IsDigits (c ∷ s) h = refl

-- What strconv.Itoa prints.
unfoldable pub print : ℤ → List ℕ
print (pos n) = itoa n
print (negsuc n) = b'-' ∷ itoa (suc n)

-- The integers of 64 bits.
abbrev pub IsInt64 : ℤ → Type 0
IsInt64 (pos n) = n < 2 ^ 63
IsInt64 (negsuc n) = n < 2 ^ 63

atoi-print : (n : ℤ) → IsInt64 n → atoi (print n) ≡ some n
unfolding itoa print atoi positive negative
atoi-print (pos n) h =
    atoi-IsDigits (itoa n) (itoa-IsDigits (suc n) n (omega arith))
    ∙ ap positive (digits-itoa (suc n) n (omega arith))
    ∙ ground arith
atoi-print (negsuc n) h =
    ap negative (
      unsigned-IsDigits (itoa (suc n)) (itoa-IsDigits (suc (suc n)) (suc n) (omega arith))
      ∙ digits-itoa (suc (suc n)) (suc n) (omega arith))
    ∙ ground arith

module _ {W : Type 0} (read_stdin : W → Result FieldError (List ℕ × W))
    (read_file : List ℕ → W → Result FieldError (List ℕ × W)) where
  magic-IsDigits :
      (s : List ℕ) (w : W)
      → IsDigits s
      → magic_field_value read_stdin read_file s w ≡ ok (plain_value s, w)
  unfolding magic_field_value IsDigits
  magic-IsDigits [] w h = absurd h
  magic-IsDigits (c ∷ s) w (h, h') = ground arith

  -- The magic value of the decimal text of an integer of 64 bits is the integer, and nothing is
  -- read.
  pub magic_field_value-print :
      (n : ℤ) (w : W)
      → IsInt64 n
      → magic_field_value read_stdin read_file (print n) w ≡ ok (integer n, w)
  unfolding magic_field_value plain_value print itoa
  magic_field_value-print (pos n) w h =
      magic-IsDigits (itoa n) w (itoa-IsDigits (suc n) n (omega arith))
      ∙ rw (plain_value, atoi-print (pos n) h) refl
  magic_field_value-print (negsuc n) w h = rw (plain_value, atoi-print (negsuc n) h) refl
