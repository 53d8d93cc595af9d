-- ===== src/DeploymentFile/Command/Whole.antt =====
-- CreateOrUpdate on the content of a file.
use mathlib.Core.Path.{subst}
use astro_cli.Prelude.{
  err, refl, inr, ◌∙◌, sym, Result, ap, ok-inj, if_intro, inl, ◌⊎◌, length, ok, eqb, ◌≡◌,
  if◌then◌else◌, ℕ, List,
}
use astro_cli.DeploymentFile.{FormattedDeployment, FileError, empty_file}
use astro_cli.DeploymentFile.Check.{check_required_fields}
use astro_cli.DeploymentFile.Check.Complete.{IsComplete, check_required_fields_iff}
use astro_cli.DeploymentFile.Calls.{Surroundings, Calls, History, lift, raise, pure, ◌>>=◌}
use astro_cli.DeploymentFile.Calls.Steps.{read_then}
use astro_cli.DeploymentFile.Command.{run_file, create_or_update_from_file, Reader}
use astro_cli.DeploymentFile.Command.Blocks.{Sends}
use astro_cli.DeploymentFile.Command.Runs.{run_file-Sends}
use astro_cli.WorkerQueue.{Action}

module _ (reader : Reader) (around : Surroundings) (action : Action) where
  abbrev run_behind : List ℕ → FormattedDeployment → Unit {0} → Calls (Unit {0})
  run_behind data_bytes file _ = run_file around file action (reader.is_json data_bytes)

  abbrev check_behind : List ℕ → FormattedDeployment → Calls (Unit {0})
  check_behind data_bytes file =
      lift (check_required_fields reader.semver reader.is_valid_email file action)
      >>= run_behind data_bytes file

  abbrev file_behind : List ℕ → Unit {0} → Calls (Unit {0})
  file_behind data_bytes _ = lift (reader.unmarshal data_bytes) >>= check_behind data_bytes

  abbrev content_behind : List ℕ → Calls (Unit {0})
  content_behind data_bytes =
      (if eqb (length data_bytes) 0 then raise empty_file else pure (tt {0}))
      >>= file_behind data_bytes

  -- A run of CreateOrUpdate on a file ends in an error and has changed nothing, or the file is
  -- complete and `Sends` relates the history before the run to what it returned and the history
  -- behind it: a create that succeeds has made one create call and, behind it and exactly if the
  -- file has variables or alert emails, one update call; an update that succeeds has made one
  -- update call; an update is left out where the user declined it; each body has the file's name;
  -- and a run that fails has made some of these calls, in this order.
  pub create_or_update_from_file-Sends :
      (h : History) {data_bytes : List ℕ} {file : FormattedDeployment}
      → reader.content ≡ ok data_bytes
      → reader.unmarshal data_bytes ≡ ok file
      → ((e : FileError) × (create_or_update_from_file reader around action h ≡ (err e, h)))
        ⊎ (IsComplete reader.semver reader.is_valid_email action file
            × Sends around file action h (create_or_update_from_file reader around action h))
  unfolding create_or_update_from_file
  create_or_update_from_file-Sends h {data_bytes = data_bytes} {file = file} content parsed =
      let P = λ (out : Result FileError (Unit {0}) × History).
        ((e : FileError) × (out ≡ (err e, h)))
        ⊎ (IsComplete reader.semver reader.is_valid_email action file
            × Sends around file action h out) in
      read_then P (lift reader.content) content_behind h refl (λ e. inl (e, refl))
        (λ bytes got.
          read_then P (if eqb (length bytes) 0 then raise empty_file else pure (tt {0}))
            (file_behind bytes) h
            (if_intro (λ (m : Calls (Unit {0})). (m h).1 ≡ h) (eqb (length bytes) 0) (λ empty. refl)
              (λ some_bytes. refl))
            (λ e. inl (e, refl))
            (λ _ _.
              read_then P (lift (reader.unmarshal bytes)) (check_behind bytes) h refl
                (λ e. inl (e, refl))
                (λ read as_file.
                  read_then P
                    (lift (check_required_fields reader.semver reader.is_valid_email read action))
                    (run_behind bytes read) h refl (λ e. inl (e, refl))
                    (λ _ passed.
                      let same : read ≡ file = ok-inj (
                        ap (λ (p : Result FileError FormattedDeployment × History). p.0)
                          (sym as_file)
                        ∙ ap reader.unmarshal (
                            ok-inj (
                              ap (λ (p : Result FileError (List ℕ) × History). p.0) (sym got)
                              ∙ content))
                        ∙ parsed) in
                      inr (
                        subst
                            (λ (f : FormattedDeployment).
                              IsComplete reader.semver reader.is_valid_email action f)
                            same
                            ((check_required_fields_iff reader.semver reader.is_valid_email read
                                action).0
                              (ap (λ (p : Result FileError (Unit {0}) × History). p.0) passed)),
                        subst
                            (λ (f : FormattedDeployment).
                              Sends around f action h
                                (run_file around read action (reader.is_json bytes) h))
                            same (run_file-Sends around read action (reader.is_json bytes) h),
                      )))))
