-- ===== src/Container/Manager/Repeat.antt =====
-- Initialize is done once: a process that it has pointed at the machine is left alone.
use astro_cli.Container.Manager.Steps.{and_then-ok}
use astro_cli.Container.{ContainerError, InspectedMachine}
use astro_cli.Prelude.{
  if_intro, ap, inr, inl, ◌==◌, none, Bool-cases, refl, err, some, arith, false, length, true, ◌||◌,
  ok, Option, eqb, ◌≡◌, String, ℕ, not, Result, List, Bool,
}
use astro_cli.Container.Manager.{
  ◌>>=◌, and_then, podman_machine_name, set_env, has_docker_host, running_env, connection_env,
  is_podman, ensure_machine, connection_env_for, initialize, State, Setup,
}

module _ {W : Type 0} (m : Setup W) where
  -- There is nothing to do: the engine is not Podman, or there is a DOCKER_HOST.
  abbrev pub is_idle : State W → Bool
  is_idle s = not (is_podman m.engine) || has_docker_host s

  initialize_idle : (s : State W) → is_idle s ≡ true → initialize m s ≡ (ok tt, s)
  unfolding initialize ensure_machine connection_env
  initialize_idle s h =
      if_intro (λ (r : Result ContainerError (Unit {0}) × State W). and_then r after ≡ (ok tt, s))
        (is_idle s)
        (λ e.
          if_intro
            (λ (r : Result ContainerError (Option (List ℕ × Option (List ℕ))) × State W).
              and_then r set_env ≡ (ok tt, s))
            (is_idle s) (λ e. refl) (λ other. absurd (cc)))
        (λ other. absurd (cc))
    where
      after : Unit {0} → State W → Result ContainerError (Unit {0}) × State W
      after u = connection_env m >>= set_env

  host-connection_env_for :
      (machine : InspectedMachine) (windows : Bool)
      → eqb (length ((connection_env_for machine windows).0)) 0 ≡ false
  unfolding connection_env_for
  host-connection_env_for machine true = ground arith
  host-connection_env_for machine false = ground arith

  set_env-idle :
      (env : List ℕ × Option (List ℕ)) (s s' : State W)
      → eqb (length (env.0)) 0 ≡ false
      → set_env (some env) s ≡ (ok tt, s')
      → is_idle s' ≡ true
  set_env-idle (host, none) s s' filled h =
      let same : host ≡ s'.docker_host =
        ap (λ (r : Result ContainerError (Unit {0}) × State W). r.1.docker_host) h in
      ground (arith, ap (λ (t : List ℕ). length t) same)
  set_env-idle (host, some container) s s' filled h =
      let same : host ≡ s'.docker_host =
        ap (λ (r : Result ContainerError (Unit {0}) × State W). r.1.docker_host) h in
      ground (arith, ap (λ (t : List ℕ). length t) same)

  running_env-idle :
      (inspected : Result String InspectedMachine) (env : Option (List ℕ × Option (List ℕ)))
      (s s' : State W)
      → running_env m inspected ≡ ok env
      → set_env env s ≡ (ok tt, s')
      → is_idle s' ≡ true
  running_env-idle (err message) env s s' e h = absurd (cc)
  running_env-idle (ok machine) env s s' e h = elim (Bool-cases (machine.state == "running")) [
    | inl r ↦
        let same : some (connection_env_for machine m.is_windows) ≡ env = cc (rw r at e) in
        set_env-idle (connection_env_for machine m.is_windows) s s'
          (host-connection_env_for machine m.is_windows) (rw same h)
    | inr r ↦ absurd (cc (rw r at e))
  ]

  connection_env-idle :
      (s s' : State W) → (connection_env m >>= set_env) s ≡ (ok tt, s') → is_idle s' ≡ true
  unfolding connection_env
  connection_env-idle s s' h = elim (Bool-cases (is_idle s)) [
    | inl e ↦
        let same : s ≡ s' =
          ap (λ (r : Result ContainerError (Unit {0}) × State W). r.1) (rw e at h) in
        rw (← same) e
    | inr e ↦
        let (env, s1, asked, set) =
          and_then-ok (running_env m (m.podman.inspect_machine podman_machine_name s.world), s)
            set_env (rw e at h) in
        running_env-idle (m.podman.inspect_machine podman_machine_name s.world) env s1 s'
          (ap (λ (r : Result ContainerError (Option (List ℕ × Option (List ℕ))) × State W). r.0)
            asked)
          set
  ]

  -- After an Initialize that succeeds, whatever it has done, another one succeeds and does nothing.
  pub initialize-initialize :
      (s s' : State W) → initialize m s ≡ (ok tt, s') → initialize m s' ≡ (ok tt, s')
  unfolding initialize
  initialize-initialize s s' h =
      let (u, s1, first, second) = and_then-ok (ensure_machine m s) _ h in
      initialize_idle s' (connection_env-idle s1 s' second)
