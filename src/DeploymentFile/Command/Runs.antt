-- ===== src/DeploymentFile/Command/Runs.antt =====
-- Runs of CreateOrUpdate behind the check of the file, whatever the platform answers.
use astro_cli.Prelude.{refl, Result, Bool, String, List}
use astro_cli.DeploymentFile.{FormattedDeployment, FileError}
use astro_cli.DeploymentFile.Calls.{Surroundings, Calls, History, lift, asks, ◌>>=◌}
use astro_cli.DeploymentFile.Calls.Steps.{read_then}
use astro_cli.DeploymentFile.Lookup.{cluster_info, get_workspace_id_from_name}
use astro_cli.DeploymentFile.Command.{run_blocks, run_file}
use astro_cli.DeploymentFile.Command.Traces.{cluster_info-silent, workspace-silent}
use astro_cli.WorkerQueue.{Action, NodePool}
use astro_cli.DeploymentFile.Command.Blocks.{Sends, sends_nothing, run_blocks-Sends}

module _ (around : Surroundings) (file : FormattedDeployment) where
  -- The steps of run_file, one after the other.
  abbrev existing_behind : Action → Bool → String → List NodePool → String → Calls (Unit {0})
  existing_behind action json_output cluster_id pools workspace_id =
      asks (around.platform.list_deployments workspace_id)
      >>= run_blocks around file action json_output cluster_id workspace_id pools

  abbrev workspace_behind : Action → Bool → String × List NodePool → Calls (Unit {0})
  workspace_behind action json_output (cluster_id, pools) =
      get_workspace_id_from_name around.platform file.configuration.workspace_name
      >>= existing_behind action json_output cluster_id pools

  abbrev cluster_behind : Action → Bool → String → Calls (Unit {0})
  cluster_behind action json_output organization =
      cluster_info around.platform file >>= workspace_behind action json_output

  pub run_file-Sends :
      (action : Action) (json_output : Bool) (h : History)
      → Sends around file action h (run_file around file action json_output h)
  unfolding run_file
  run_file-Sends action json_output h =
      let P = λ (out : Result FileError (Unit {0}) × History). Sends around file action h out in
      read_then P (lift around.platform.organization) (cluster_behind action json_output) h refl
        (λ e. sends_nothing e)
        (λ organization _.
          read_then P (cluster_info around.platform file) (workspace_behind action json_output) h
            (cluster_info-silent around.platform file h) (λ e. sends_nothing e)
            (λ (cluster_id, pools) _.
              read_then P
                (get_workspace_id_from_name around.platform file.configuration.workspace_name)
                (existing_behind action json_output cluster_id pools) h
                (workspace-silent around.platform file.configuration.workspace_name h)
                (λ e. sends_nothing e)
                (λ workspace_id _.
                  read_then P (asks (around.platform.list_deployments workspace_id))
                    (run_blocks around file action json_output cluster_id workspace_id pools) h refl
                    (λ e. sends_nothing e)
                    (λ existing _.
                      run_blocks-Sends around file cluster_id workspace_id pools json_output action
                        existing h))))
