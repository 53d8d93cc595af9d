-- ===== src/DeploymentFile/Kinds/Executors.antt =====
-- The executors that a file may name, and the ones that are sent.
use astro_cli.Prelude.{
  none, [], ◌∷◌, ◌⊎◌, zero, inr, inl, ◌-◌, ◌+◌, sym, leb, pick, ◌&&◌, some, ◌∙◌, Bool-cases,
  if◌then◌else◌, ◌<◌, suc, Bool, refl, arith, equal_fold, upper_char, true, String, ◌≡◌, eqb,
  to_upper, to_lower, ℕ,
}
use Prim.Native.Char.{Char, code}
use mathlib.Core.Path.{ap₂}
use astro_cli.WorkerQueue.{Executor, astro}
use text.Mathlib.TextEquality.{Char-path}
use astro_cli.DeploymentFile.Kinds.{hybrid_executor, updated_executor}

-- The codes of a text are consecutive numbers.
abbrev is_run : ℕ → String → Bool
is_run n String.[] = true
is_run n (String.◌∷◌ c s) = eqb (code c) n && is_run (suc n) s

abbrev size : String → ℕ
size String.[] = 0
size (String.◌∷◌ c s) = suc (size s)

code-pick :
    (s : String) (n i : ℕ) (d : Char) → is_run n s ≡ true → i < size s → code (pick s i d) ≡ n + i
code-pick String.[] n i d run below = absurd (omega arith)
code-pick (String.◌∷◌ c s) n zero d run below = ground arith
code-pick (String.◌∷◌ c s) n (suc i) d run below =
    let rest : code (pick s i d) ≡ suc n + i =
      code-pick s (suc n) i d (ground arith) (omega arith) in
    omega (arith, rest)

abbrev upper_code : ℕ → ℕ
upper_code n = if leb b'a' n && leb n b'z' then n - 32 else n

code-upper_char : (c : Char) → code (upper_char c) ≡ upper_code (code c)
code-upper_char c = elim (Bool-cases (leb b'a' (code c) && leb (code c) b'z')) [
  | inl small ↦
      let found =
        code-pick "ABCDEFGHIJKLMNOPQRSTUVWXYZ" b'A' (code c - b'a') c refl (ground arith) in
      rw small (ground (arith, found))
  | inr other ↦ rw other refl
]

same_upper_code : (m n : ℕ) → to_lower m ≡ to_lower n → upper_code m ≡ upper_code n
same_upper_code m n e = ground arith

-- Texts that differ in the case of their letters only are the same in upper case.
same_upper_char : (c d : Char) → to_lower (code c) ≡ to_lower (code d) → upper_char c ≡ upper_char d
same_upper_char c d e =
    Char-path (upper_char c) (upper_char d)
      (code-upper_char c ∙ same_upper_code (code c) (code d) e ∙ sym (code-upper_char d))

and-true : (a b : Bool) → (a && b) ≡ true → (a ≡ true) × (b ≡ true)
and-true a b e = ground arith

eqb-same : (m n : ℕ) → eqb m n ≡ true → m ≡ n
eqb-same m n e = ground arith

pub equal_fold-to_upper : (s t : String) → equal_fold s t ≡ true → to_upper s ≡ to_upper t
unfolding to_upper
equal_fold-to_upper String.[] String.[] e = refl
equal_fold-to_upper String.[] (String.◌∷◌ d t) e = absurd (cc)
equal_fold-to_upper (String.◌∷◌ c s) String.[] e = absurd (cc)
equal_fold-to_upper (String.◌∷◌ c s) (String.◌∷◌ d t) e =
    let (first, rest) = and-true (eqb (to_lower (code c)) (to_lower (code d))) (equal_fold s t) e in
    ap₂ (λ (x : Char) (xs : String). String.◌∷◌ x xs)
      (same_upper_char c d (eqb-same (to_lower (code c)) (to_lower (code d)) first))
      (equal_fold-to_upper s t rest)

abbrev pub IsKnown : String → Type 0
IsKnown executor = (x : Executor) × (updated_executor executor ≡ some x)

-- What an update sends: on a hybrid deployment, no executor in place of the Astro executor.
abbrev pub IsSent : String → Type 0
IsSent executor =
    (x : Executor) × (updated_executor executor ≡ some x)
    × (((x ≡ astro) × (hybrid_executor (updated_executor executor) ≡ none))
        ⊎ (hybrid_executor (updated_executor executor) ≡ some x))
