-- ===== src/Proxy/Hostname/Label.antt =====
-- SanitizeLabel makes labels, and leaves them as they are.
use mathlib.Core.Path.{subst}
use astro_cli.Prelude.{
  ◌↔◌, inr, refl, zero, inl, ap, ltb, [], suc, Bool-cases, ◌∷◌, arith, map, ◌&&◌, take, ◌≤◌, true,
  false, length, eqb, All, Bool, ◌≡◌, List, ℕ,
}
use astro_cli.Proxy.Hostname.{
  lower_rune, max_label_len, sanitize_label, trim_right, trim_left, replace_runs, is_allowed,
}

abbrev pub Allowed : ℕ → Type 0
Allowed c = is_allowed c ≡ true

abbrev pub starts_with_hyphen : List ℕ → Bool
starts_with_hyphen [] = false
starts_with_hyphen (c ∷ s) = eqb c b'-'

abbrev pub ends_with_hyphen : List ℕ → Bool
ends_with_hyphen [] = false
ends_with_hyphen (c ∷ []) = eqb c b'-'
ends_with_hyphen (c ∷ d ∷ s) = ends_with_hyphen (d ∷ s)

-- A label of a hostname, or the empty text.
abbrev pub IsLabel : List ℕ → Type 0
IsLabel s =
    All Allowed s
    × (starts_with_hyphen s ≡ false)
    × (ends_with_hyphen s ≡ false)
    × (length s ≤ max_label_len)

All-replace_runs : (inside : Bool) (s : List ℕ) → All Allowed (replace_runs inside s)
unfolding replace_runs
All-replace_runs inside [] = tt
All-replace_runs inside (c ∷ s) = elim (Bool-cases (is_allowed c)) [
  | inl kept ↦ rw kept (kept, All-replace_runs false s)
  | inr other ↦ elim (Bool-cases inside) [
    | inl e ↦ rw (other, e) (All-replace_runs true s)
    | inr e ↦ rw (other, e) (refl, All-replace_runs true s)
  ]
]

All-trim_left : (s : List ℕ) → All Allowed s → All Allowed (trim_left s)
unfolding trim_left
All-trim_left [] h = tt
All-trim_left (c ∷ s) (hc, h) = elim (Bool-cases (eqb c b'-')) [
  | inl e ↦ rw e (All-trim_left s h)
  | inr e ↦ rw e (hc, h)
]

All-trim_right : (s : List ℕ) → All Allowed s → All Allowed (trim_right s)
unfolding trim_right
All-trim_right [] h = tt
All-trim_right (c ∷ s) (hc, h) = elim (Bool-cases (eqb c b'-' && eqb (length (trim_right s)) 0)) [
  | inl e ↦ rw e tt
  | inr e ↦ rw e (hc, All-trim_right s h)
]

All-take : (n : ℕ) (s : List ℕ) → All Allowed s → All Allowed (take n s)
All-take zero s h = tt
All-take (suc n) [] h = tt
All-take (suc n) (c ∷ s) (hc, h) = (hc, All-take n s h)

starts-trim_left : (s : List ℕ) → starts_with_hyphen (trim_left s) ≡ false
unfolding trim_left
starts-trim_left [] = refl
starts-trim_left (c ∷ s) = elim (Bool-cases (eqb c b'-')) [
  | inl e ↦ rw e (starts-trim_left s)
  | inr e ↦ rw e e
]

starts-trim_right :
    (s : List ℕ) → starts_with_hyphen s ≡ false → starts_with_hyphen (trim_right s) ≡ false
unfolding trim_right
starts-trim_right [] h = refl
starts-trim_right (c ∷ s) h = rw h h

starts-take :
    (n : ℕ) (s : List ℕ) → starts_with_hyphen s ≡ false → starts_with_hyphen (take n s) ≡ false
starts-take zero s h = refl
starts-take (suc n) [] h = refl
starts-take (suc n) (c ∷ s) h = h

ends-cons :
    (c : ℕ) (s : List ℕ)
    → (eqb c b'-' && eqb (length s) 0) ≡ false
    → ends_with_hyphen s ≡ false
    → ends_with_hyphen (c ∷ s) ≡ false
ends-cons c [] h e = ground arith
ends-cons c (d ∷ s) h e = e

ends-trim_right : (s : List ℕ) → ends_with_hyphen (trim_right s) ≡ false
unfolding trim_right
ends-trim_right [] = refl
ends-trim_right (c ∷ s) = elim (Bool-cases (eqb c b'-' && eqb (length (trim_right s)) 0)) [
  | inl e ↦ rw e refl
  | inr e ↦ rw e (ends-cons c (trim_right s) e (ends-trim_right s))
]

length-trim_right-le : (s : List ℕ) → length (trim_right s) ≤ length s
unfolding trim_right
length-trim_right-le [] = omega arith
length-trim_right-le (c ∷ s) = ground (arith, length-trim_right-le s)

length-take-le : (n : ℕ) (s : List ℕ) → length (take n s) ≤ n
length-take-le zero s = omega arith
length-take-le (suc n) [] = omega arith
length-take-le (suc n) (c ∷ s) = omega (arith, length-take-le n s)

sanitize_label-IsLabel : (name : List ℕ) → IsLabel (sanitize_label name)
unfolding sanitize_label
sanitize_label-IsLabel name =
    let replaced = replace_runs false (map lower_rune name) in
    let left = trim_left replaced in
    let label = trim_right left in
    let all =
      All-trim_right left (All-trim_left replaced (All-replace_runs false (map lower_rune name))) in
    let starts = starts-trim_right left (starts-trim_left replaced) in
    let cut = take max_label_len label in
    elim (Bool-cases (ltb max_label_len (length label))) [
      | inl long ↦ rw long (
        All-trim_right cut (All-take max_label_len label all),
        starts-trim_right cut (starts-take max_label_len label starts),
        ends-trim_right cut,
        omega (arith, length-trim_right-le cut, length-take-le max_label_len label),
      )
      | inr short ↦ rw short (all, starts, ends-trim_right left, ground arith)
    ]

lower-Allowed : (c : ℕ) → is_allowed c ≡ true → lower_rune c ≡ c
lower-Allowed c h = ground arith

replace_runs-Allowed : (s : List ℕ) → All Allowed s → replace_runs false (map lower_rune s) ≡ s
unfolding replace_runs
replace_runs-Allowed [] h = refl
replace_runs-Allowed (c ∷ s) (hc, h) =
    rw (lower-Allowed c hc, hc) (ap (λ t. c ∷ t) (replace_runs-Allowed s h))

trim_left-same : (s : List ℕ) → starts_with_hyphen s ≡ false → trim_left s ≡ s
unfolding trim_left
trim_left-same [] h = refl
trim_left-same (c ∷ s) h = rw h refl

trim_right-cons :
    (c : ℕ) (s : List ℕ)
    → trim_right s ≡ s
    → (eqb c b'-' && eqb (length s) 0) ≡ false
    → trim_right (c ∷ s) ≡ c ∷ s
unfolding trim_right
trim_right-cons c s same keeps = rw (same, keeps) refl

trim_right-nil : trim_right [] ≡ []
unfolding trim_right
trim_right-nil = refl

trim_right-same : (s : List ℕ) → ends_with_hyphen s ≡ false → trim_right s ≡ s
trim_right-same [] h = trim_right-nil
trim_right-same (c ∷ []) h = trim_right-cons c [] trim_right-nil (rw h refl)
trim_right-same (c ∷ d ∷ s) h = trim_right-cons c (d ∷ s) (trim_right-same (d ∷ s) h) (ground arith)

sanitize_label-same : (label : List ℕ) → IsLabel label → sanitize_label label ≡ label
unfolding sanitize_label
sanitize_label-same label (all, starts, ends, short) =
    rw (replace_runs-Allowed label all, trim_left-same label starts, trim_right-same label ends)
      (ground arith)

-- SanitizeLabel returns lower-case letters, digits and hyphens only, with no hyphen at either end,
-- and 63 characters at most; and the texts that it leaves as they are are exactly those.
pub sanitize_label-IsLabel_iff :
    (name : List ℕ) → IsLabel (sanitize_label name) × (IsLabel name ↔ (sanitize_label name ≡ name))
sanitize_label-IsLabel_iff name = (
  sanitize_label-IsLabel name,
  (sanitize_label-same name, λ e. subst IsLabel e (sanitize_label-IsLabel name)),
)
