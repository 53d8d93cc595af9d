-- ===== src/Fields/RoundTrip.antt =====
-- A field is cut where it was put together.
use astro_cli.Fields.Scan.{other, mark_of, slice, head_key, scan, cut_at, cut}
use astro_cli.Prelude.{
  ◌-◌, false, eqb, some, ok, append-nil, append_assoc, drop-append, length-append, sym, ◌≢◌, drop,
  refl, arith, ◌∙◌, ap, [], length, ◌+◌, ◌∷◌, take, All, ◌++◌, List, ℕ, ◌≡◌,
}

-- `[k]` for each key.
unfoldable pub brackets : List (List ℕ) → List ℕ
brackets [] = []
brackets (k ∷ keys) = b'[' ∷ k ++ b']' ∷ brackets keys

-- `k[k1][k2]...=value`
unfoldable pub field_of : List ℕ → List (List ℕ) → List ℕ → List ℕ
unfolding brackets
field_of k keys value = (k ++ brackets keys) ++ b'=' ∷ value

-- None of the separators.
abbrev pub IsPlain : List ℕ → Type 0
IsPlain = All (λ c. mark_of c ≡ other)

scan-plain :
    (f k rest : List ℕ) (i key_start_at : ℕ) (keystack : List (List ℕ))
    → IsPlain k
    → scan f (k ++ rest) i key_start_at keystack ≡ scan f rest (i + length k) key_start_at keystack
unfolding scan
scan-plain f [] rest i key_start_at keystack h =
    ap (λ n. scan f rest n key_start_at keystack) (omega arith)
scan-plain f (c ∷ k) rest i key_start_at keystack (hc, h) =
    rw (hc, scan)
      (scan-plain f k rest (i + 1) key_start_at keystack h
        ∙ ap (λ n. scan f rest n key_start_at keystack) (omega arith))

take-append : (xs ys : List ℕ) → take (length xs) (xs ++ ys) ≡ xs
take-append [] ys = refl
take-append (x ∷ xs) ys = ap (λ t. x ∷ t) (take-append xs ys)

slice-append :
    (pre k rest : List ℕ) → slice (pre ++ k ++ rest) (length pre) (length pre + length k) ≡ k
unfolding slice
slice-append pre k rest =
    ap (λ n. drop (length pre) (take n (pre ++ k ++ rest))) (sym (length-append pre k))
    ∙ ap (drop (length pre)) (take-append (pre ++ k) rest)
    ∙ drop-append pre k

-- A key up to its closing bracket.
scan-key :
    (f pre k rest : List ℕ) (keystack : List (List ℕ))
    → f ≡ pre ++ k ++ b']' ∷ rest
    → IsPlain k
    → scan f (k ++ b']' ∷ rest) (length pre) (length pre) keystack
      ≡ scan f rest (length pre + length k + 1) (length pre) (keystack ++ k ∷ [])
unfolding scan mark_of
scan-key f pre k rest keystack same h =
    scan-plain f k (b']' ∷ rest) (length pre) (length pre) keystack h
    ∙ ap (λ t. scan f rest (length pre + length k + 1) (length pre) (keystack ++ t ∷ []))
        (ap (λ t. slice t (length pre) (length pre + length k)) same
          ∙ slice-append pre k (b']' ∷ rest))

-- A key and its brackets.
scan-bracket :
    (f pre k rest : List ℕ) (key_start_at : ℕ) (keystack : List (List ℕ))
    → f ≡ pre ++ (b'[' ∷ k ++ b']' ∷ rest)
    → IsPlain k
    → scan f (b'[' ∷ k ++ b']' ∷ rest) (length pre) key_start_at keystack
      ≡ scan f rest
          (length (pre ++ (b'[' ∷ k ++ b']' ∷ [])))
          (length pre + 1)
          (head_key f (length pre) key_start_at keystack ++ k ∷ [])
unfolding scan mark_of
scan-bracket f pre k rest key_start_at keystack same h =
    ap (λ n. scan f (k ++ b']' ∷ rest) n n stack) (sym next)
    ∙ scan-key f (pre ++ b'[' ∷ []) k rest stack (same ∙ simp append_assoc) h
    ∙ ap (λ n. scan f rest (n + length k + 1) n (stack ++ k ∷ [])) next
    ∙ ap (λ n. scan f rest n (length pre + 1) (stack ++ k ∷ []))
        (omega (arith, length-append pre (b'[' ∷ k ++ b']' ∷ []), length-append k (b']' ∷ [])))
  where
    stack : List (List ℕ)
    stack = head_key f (length pre) key_start_at keystack

    next : length (pre ++ b'[' ∷ []) ≡ length pre + 1
    next = omega (arith, length-append pre (b'[' ∷ []))

head_key-later :
    (f : List ℕ) (i key_start_at : ℕ) (keystack : List (List ℕ))
    → key_start_at ≢ 0
    → head_key f i key_start_at keystack ≡ keystack
unfolding head_key
head_key-later f i key_start_at keystack h = ground arith

-- The brackets, and the value after them.
scan-brackets :
    (f pre : List ℕ) (keys : List (List ℕ)) (value : List ℕ) (key_start_at : ℕ)
    (keystack : List (List ℕ))
    → f ≡ pre ++ (brackets keys ++ b'=' ∷ value)
    → All IsPlain keys
    → scan f (brackets keys ++ b'=' ∷ value) (length pre) key_start_at keystack
      ≡ (head_key f (length pre) key_start_at keystack ++ keys, length (pre ++ brackets keys) + 1)
unfolding scan mark_of brackets
scan-brackets f pre [] value key_start_at keystack same plain =
    rw (append-nil (head_key f (length pre) key_start_at keystack), append-nil pre) refl
scan-brackets f pre (k ∷ keys) value key_start_at keystack same (hk, plain) =
    let done : List ℕ = pre ++ (b'[' ∷ k ++ b']' ∷ []) in
    let rest : List ℕ = brackets keys ++ b'=' ∷ value in
    let stack : List (List ℕ) = head_key f (length pre) key_start_at keystack ++ k ∷ [] in
    let cut_off : brackets (k ∷ keys) ++ b'=' ∷ value ≡ b'[' ∷ k ++ b']' ∷ rest =
      simp append_assoc in
    ap (λ t. scan f t (length pre) key_start_at keystack) cut_off
    ∙ scan-bracket f pre k rest key_start_at keystack (same ∙ ap (λ t. pre ++ t) cut_off) hk
    ∙ scan-brackets f done keys value (length pre + 1) stack (same ∙ simp append_assoc) plain
    ∙ ap (λ (t : List (List ℕ)). (t ++ keys, length (done ++ brackets keys) + 1))
        (head_key-later f (length done) (length pre + 1) stack (ground arith))
    ∙ simp append_assoc

scan-field_of :
    (k : List ℕ) (keys : List (List ℕ)) (value : List ℕ)
    → IsPlain k
    → All IsPlain keys
    → scan (field_of k keys value) (field_of k keys value) 0 0 []
      ≡ (k ∷ keys, length (k ++ brackets keys) + 1)
unfolding head_key slice field_of
scan-field_of k keys value hk plain =
    ap (λ t. scan f t 0 0 []) whole
    ∙ scan-plain f k rest 0 0 [] hk
    ∙ ap (λ n. scan f rest n 0 []) (omega arith)
    ∙ scan-brackets f k keys value 0 [] whole plain
    ∙ ap (λ (t : List ℕ). (t ∷ keys, length (k ++ brackets keys) + 1))
        (ap (take (length k)) whole ∙ take-append k rest)
  where
    f : List ℕ
    f = field_of k keys value

    rest : List ℕ
    rest = brackets keys ++ b'=' ∷ value

    whole : f ≡ k ++ rest
    whole = append_assoc k (brackets keys) (b'=' ∷ value)

drop-behind : (path value : List ℕ) (c : ℕ) → drop (length path + 1) (path ++ c ∷ value) ≡ value
drop-behind path value c =
    ap (λ n. drop n (path ++ c ∷ value)) (omega (arith, length-append path (c ∷ [])))
    ∙ ap (drop (length (path ++ c ∷ []))) (sym (append_assoc path (c ∷ []) value))
    ∙ drop-append (path ++ c ∷ []) value

-- What is cut at a value index is what stands before and after it.
cut_at-value :
    (path : List ℕ) (value : List ℕ) (k : List ℕ) (keys : List (List ℕ))
    → cut_at (path ++ b'=' ∷ value) (k ∷ keys, length path + 1)
      ≡ ok (record { keystack = k ∷ keys; key = path; value = some value })
unfolding cut_at slice
cut_at-value path value k keys =
    let some_key : eqb (length (k ∷ keys)) 0 ≡ false = ground arith in
    let some_index : eqb (length path + 1) 0 ≡ false = ground arith in
    let before : length path + 1 - 1 ≡ length path = omega arith in
    rw
      (
        cut_at,
        some_key,
        some_index,
        before,
        take-append path (b'=' ∷ value),
        drop-behind path value b'=',
      )
      refl

-- The field of a key, its brackets and a value is cut in these.
pub cut-field_of :
    (k : List ℕ) (keys : List (List ℕ)) (value : List ℕ)
    → IsPlain k
    → All IsPlain keys
    → cut (field_of k keys value)
      ≡ ok (record { keystack = k ∷ keys; key = k ++ brackets keys; value = some value })
unfolding cut field_of
cut-field_of k keys value hk plain =
    ap (cut_at (field_of k keys value)) (scan-field_of k keys value hk plain)
    ∙ cut_at-value (k ++ brackets keys) value k keys
