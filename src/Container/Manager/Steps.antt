-- ===== src/Container/Manager/Steps.antt =====
-- What a step that succeeded has done.
use astro_cli.Container.{ContainerError}
use astro_cli.Prelude.{ap, refl, sym, err, ok, ◌≡◌, String, Result}
use astro_cli.Container.Manager.{answered, finished, and_then, State, M}

pub and_then-ok :
    {W A B : Type 0} (r : Result ContainerError A × State W) (next : A → M W B) {b : B}
    {s' : State W}
    → and_then r next ≡ (ok b, s')
    → (a : A) × (s : State W) × (r ≡ (ok a, s)) × (next a s ≡ (ok b, s'))
and_then-ok (err e, s) next h = absurd (cc)
and_then-ok (ok a, s) next h = (a, s, refl, h)

pub finished-ok :
    {W : Type 0} (s : State W) (r : Result String (Unit {0}) × W) {s' : State W}
    → finished s r ≡ (ok tt, s')
    → (r.0 ≡ ok tt) × (s'.world ≡ r.1)
finished-ok s (err message, w) h = absurd (cc)
finished-ok {W} s (ok u, w) h =
    (refl, sym (ap (λ (p : Result ContainerError (Unit {0}) × State W). p.1.world) h))

pub answered-ok : {A : Type 0} (r : Result String A) {a : A} → answered r ≡ ok a → r ≡ ok a
answered-ok (err message) h = absurd (cc)
answered-ok (ok a) h = cc
