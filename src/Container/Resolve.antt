-- ===== src/Container/Resolve.antt =====
-- engine.go: which engine the host has.
use astro_cli.Prelude.{
  refl, inr, inl, eq_iff, arith, true, false, ◌≢◌, ◌⊎◌, err, ◌↔◌, ◌==◌, String, ◌>>=◌, ok,
  if◌then◌else◌, contains_by, List, ◌≡◌, Result, Bool,
}
use astro_cli.Container.{
  runtime_not_found, docker, orbstack, podman, Config, ContainerError, Engine,
}

-- The programs that are searched for.
pub data Binary : Type 0 where
  docker_binary podman_binary orbctl_binary : Binary

-- Whether a directory holds a program, with the suffix `.exe` or without, and the directories of
-- $PATH.
pub record Host : Type 0 where
  pub is_windows : Bool
  pub is_mac : Bool
  pub path_dirs : List String
  pub file_exists : String → Binary → Bool → Bool

-- The directories are searched at the same time, and one that holds the program is enough.
unfoldable pub find_binary : Host → Binary → Bool
find_binary h binary = contains_by (λ dir. h.file_exists dir binary h.is_windows) h.path_dirs

unfoldable pub resolve_binary : Config → Host → Result ContainerError Binary
resolve_binary cfg h =
    if cfg.binary == "docker"
    then ok docker_binary
    else if cfg.binary == "podman"
    then ok podman_binary
    else if find_binary h docker_binary
    then ok docker_binary
    else if find_binary h podman_binary
    then ok podman_binary
    else err runtime_not_found

abbrev pub engine_of : Host → Binary → Engine
engine_of h podman_binary = podman
engine_of h docker_binary = if find_binary h orbctl_binary then orbstack else docker
engine_of h orbctl_binary = if find_binary h orbctl_binary then orbstack else docker

unfoldable pub resolve_with : Config → Host → Result ContainerError Engine
resolve_with cfg h = do bin ← resolve_binary cfg h; ok (engine_of h bin)

unfoldable pub binary_of : Engine → Binary
binary_of podman = podman_binary
binary_of docker = docker_binary
binary_of orbstack = docker_binary

-- Podman is chosen exactly if it is named, or if no supported program is named and the host has
-- podman and not docker.
pub resolve_with-podman_iff :
    (cfg : Config) (h : Host)
    → (resolve_with cfg h ≡ ok podman) ↔ (
        (cfg.binary ≡ "podman")
        ⊎ ((cfg.binary ≢ "docker")
            × (find_binary h docker_binary ≡ false)
            × (find_binary h podman_binary ≡ true)))
unfolding resolve_with resolve_binary
resolve_with-podman_iff cfg h = (
  λ e. ground (arith, eq_iff cfg.binary "docker", eq_iff cfg.binary "podman"),
  λ e. elim e [
    | inl named ↦ rw named refl
    | inr (other, no_docker, has_podman) ↦
        ground (arith, eq_iff cfg.binary "docker", eq_iff cfg.binary "podman")
  ],
)
