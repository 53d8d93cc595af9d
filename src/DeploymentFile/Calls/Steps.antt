-- ===== src/DeploymentFile/Calls/Steps.antt =====
-- Two calls in a row: what the history is behind them, and what both returned.
use mathlib.Core.Path.{subst}
use astro_cli.Prelude.{◌∙◌, ap, refl, sym, err, ok, arith, ◌≡◌, Result}
use astro_cli.DeploymentFile.{FileError}
use astro_cli.DeploymentFile.Calls.{Calls, History, pure, ◌>>=◌, ◌>>◌}

-- `m >>= f` from what `m` returned.
abbrev pub continue {ℓ κ} :
    {A : Type ℓ} {B : Type κ}
    → Result FileError A × History
    → (A → Calls B)
    → Result FileError B × History
continue (err e, h) f = (err e, h)
continue (ok a, h) f = f a h

continue-bind {ℓ κ} :
    {A : Type ℓ} {B : Type κ} (m : Calls A) (f : A → Calls B) (h : History)
    → (m >>= f) h ≡ continue (m h) f
continue-bind m f h = ground arith

module _ {ℓ κ} {A : Type ℓ} {B : Type κ} where
  continue-history {μ} :
      (P : History → Type μ) (out : Result FileError A × History) (f : A → Calls B) (h : History)
      → out.1 ≡ h
      → P h
      → ((a : A) → out ≡ (ok a, h) → P (f a h).1)
      → P (continue out f).1
  continue-history P (err e, k) f h same stays goes = subst P (sym same) stays
  continue-history P (ok a, k) f h same stays goes =
      subst (λ (x : History). P (f a x).1) (sym same)
        (goes a (ap (λ (x : History). (ok a, x)) same))

  -- A first call that changes nothing: the history is as it was, or as the second call leaves it.
  pub after_read {μ} :
      (P : History → Type μ) (m : Calls A) (f : A → Calls B) (h : History)
      → (m h).1 ≡ h
      → P h
      → ((a : A) → m h ≡ (ok a, h) → P (f a h).1)
      → P ((m >>= f) h).1
  after_read P m f h same stays goes =
      subst (λ (out : Result FileError B × History). P out.1) (sym (continue-bind m f h))
        (continue-history P (m h) f h same stays goes)

  continue-read {μ} :
      (P : Result FileError B × History → Type μ) (out : Result FileError A × History)
      (f : A → Calls B) (h : History)
      → out.1 ≡ h
      → ((e : FileError) → P (err e, h))
      → ((a : A) → out ≡ (ok a, h) → P (f a h))
      → P (continue out f)
  continue-read P (err e, k) f h same stays goes =
      subst (λ (x : History). P (err e, x)) (sym same) (stays e)
  continue-read P (ok a, k) f h same stays goes =
      subst (λ (x : History). P (f a x)) (sym same) (goes a (ap (λ (x : History). (ok a, x)) same))

  -- The same with what was returned: an error of the first call, or what the second call returns.
  pub read_then {μ} :
      (P : Result FileError B × History → Type μ) (m : Calls A) (f : A → Calls B) (h : History)
      → (m h).1 ≡ h
      → ((e : FileError) → P (err e, h))
      → ((a : A) → m h ≡ (ok a, h) → P (f a h))
      → P ((m >>= f) h)
  read_then P m f h same stays goes =
      subst P (sym (continue-bind m f h)) (continue-read P (m h) f h same stays goes)

  continue-ok :
      (out : Result FileError A × History) (f : A → Calls B) {b : B} {last : History}
      → continue out f ≡ (ok b, last)
      → (a : A) × (middle : History) × (out ≡ (ok a, middle)) × (f a middle ≡ (ok b, last))
  continue-ok (err e, k) f same = absurd (cc)
  continue-ok (ok a, k) f same = (a, k, refl, same)

  -- Two calls that succeeded.
  pub both-ok :
      (m : Calls A) (f : A → Calls B) (h : History) {b : B} {last : History}
      → (m >>= f) h ≡ (ok b, last)
      → (a : A) × (middle : History) × (m h ≡ (ok a, middle)) × (f a middle ≡ (ok b, last))
  both-ok m f h same = continue-ok (m h) f (sym (continue-bind m f h) ∙ same)

  continue-call {μ} :
      (P : Result FileError B × History → Type μ) (out : Result FileError A × History)
      (f : A → Calls B)
      → ((e : FileError) (k : History) → out ≡ (err e, k) → P (err e, k))
      → ((a : A) (k : History) → out ≡ (ok a, k) → P (f a k))
      → P (continue out f)
  continue-call P (err e, k) f fails goes = fails e k refl
  continue-call P (ok a, k) f fails goes = goes a k refl

  -- A first call that may change the platform, by how it ended.
  pub call_then {μ} :
      (P : Result FileError B × History → Type μ) (m : Calls A) (f : A → Calls B) (h : History)
      → ((e : FileError) (k : History) → m h ≡ (err e, k) → P (err e, k))
      → ((a : A) (k : History) → m h ≡ (ok a, k) → P (f a k))
      → P ((m >>= f) h)
  call_then P m f h fails goes =
      subst P (sym (continue-bind m f h)) (continue-call P (m h) f fails goes)

  continue-silent :
      (out : Result FileError A × History) (f : A → Calls B)
      → ((a : A) (k : History) → (f a k).1 ≡ k)
      → (continue out f).1 ≡ out.1
  continue-silent (err e, k) f silent = refl
  continue-silent (ok a, k) f silent = silent a k

  -- A second call that changes nothing.
  pub after_silent :
      (m : Calls A) (f : A → Calls B) (h : History)
      → ((a : A) (k : History) → (f a k).1 ≡ k)
      → ((m >>= f) h).1 ≡ (m h).1
  after_silent m f h silent =
      ap (λ (out : Result FileError B × History). out.1) (continue-bind m f h)
      ∙ continue-silent (m h) f silent

-- A value put behind a call changes no history.
pub then_pure {ℓ κ} :
    {A : Type ℓ} {B : Type κ} (m : Calls A) (b : B) (h : History) → ((m >> pure b) h).1 ≡ (m h).1
then_pure m b h = ground arith
