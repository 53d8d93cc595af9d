-- ===== src/WorkerQueue/Select/Known.antt =====
-- A machine that is selected is one of the platform's.
use astro_cli.Prelude.{
  [], ◌∙◌, suc, inr, sym, arith, ap, ◌+◌, codes, some-inj, itoa, inl, equal_fold, eq_codes, false,
  Bool-cases, ◌∷◌, ◌==◌, true, none, get_elem?, some, ok, find_by, ℕ, ◌≡◌, String, Bool, List,
  Option,
}
use astro_cli.WorkerQueue.{WorkerMachine, QueueError}
use astro_cli.WorkerQueue.Select.{choose, or_error, select_worker_machine}

or_error-ok {ℓ} :
    {A : Type ℓ} (o : Option A) (e : QueueError) {a : A} → or_error o e ≡ ok a → o ≡ some a
or_error-ok none e h = absurd (cc)
or_error-ok (some a) e h = cc

choose-known {ℓ} :
    {A : Type ℓ} (xs : List A) (i : ℕ) (choice : List ℕ) {a : A}
    → choose xs i choice ≡ some a
    → (k : ℕ) × (get_elem? xs k ≡ some a)
unfolding choose
choose-known [] i choice h = absurd (cc)
choose-known (x ∷ xs) i choice h = elim (Bool-cases (eq_codes choice (itoa (i + 1)))) [
  | inl this ↦ (0, rw this at h)
  | inr other ↦ let (k, there) = choose-known xs (i + 1) choice (rw other at h) in (suc k, there)
]

find_by-known {ℓ} :
    {A : Type ℓ} (test : A → Bool) (xs : List A) {a : A}
    → find_by test xs ≡ some a
    → (k : ℕ) × (get_elem? xs k ≡ some a) × (test a ≡ true)
find_by-known test [] h = absurd (cc)
find_by-known test (x ∷ xs) {a} h = elim (Bool-cases (test x)) [
  | inl this ↦
      let same : x ≡ a = some-inj (rw this at h) in (0, ap some same, ap test (sym same) ∙ this)
  | inr other ↦
      let (k, there, holds) = find_by-known test xs (rw other at h) in (suc k, there, holds)
]

-- It has the name asked for, in some case of its letters, if one was asked for.
pub select_worker_machine-known :
    (worker_type : String) (machines : List WorkerMachine) (choice : String)
    {machine : WorkerMachine}
    → select_worker_machine worker_type machines choice ≡ ok machine
    → (k : ℕ) × (get_elem? machines k ≡ some machine)
      × ((worker_type == "") ≡ false → equal_fold machine.name worker_type ≡ true)
unfolding select_worker_machine
select_worker_machine-known worker_type machines choice h = elim (Bool-cases (worker_type == "")) [
  | inl asked ↦
      let (k, there) =
        choose-known machines 0 (codes choice)
          (or_error-ok (choose machines 0 (codes choice)) _ (rw asked at h)) in
      (k, there, λ named. absurd (ground arith))
  | inr named ↦
      let (k, there, same) =
        find_by-known (λ (m : WorkerMachine). equal_fold m.name worker_type) machines
          (or_error-ok (find_by (λ (m : WorkerMachine). equal_fold m.name worker_type) machines) _
            (rw named at h)) in
      (k, there, λ _. same)
]
