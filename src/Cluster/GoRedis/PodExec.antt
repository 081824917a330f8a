-- ===== src/Cluster/GoRedis/PodExec.antt =====
-- internal/cluster/exec.go: commands in pods.
use valkeycluster_operator.Prelude.{Bool, true, List, ◌∷◌, ◌++◌, ⊤}
use valkeycluster_operator.Text.{Text, codes}
use valkeycluster_operator.Exec.{Exec, wrapped, Result, ok, err, ◌>>=◌}
use valkeycluster_operator.Cluster.GoRedis.{PodExecutor}

-- `PodExecOptions`
pub record ExecOptions : Type 0 where
  pub container : Text
  pub command : List Text
  pub stdout : Bool
  pub stderr : Bool

-- the streams of a command that has ended, and its error if there is one
pub record Streams : Type 0 where
  pub stdout : Text
  pub stderr : Text
  pub status : Result ⊤

-- what is used of the Kubernetes API: the executor of a POST request for the `exec` subresource of a
-- pod (namespace, pod, options) is a handle, and streaming runs the command. The configuration and
-- the client set are in the operations
pub record PodExec (W : Type 0) : Type 1 where
  pub Handle : Type 0
  pub new_spdy_executor : Text → Text → ExecOptions → Exec W Handle
  pub stream : Handle → W → Streams × W

abbrev pub exec_options : Text → List Text → ExecOptions
exec_options container command = record {
  container = container;
  command = command;
  stdout = true;
  stderr = true;
}

-- the result of the streams; the output beside an error is for callers that look at it, and none does
abbrev pub streamed : Text → Text → Streams → Result Text
streamed namespace pod s = elim s.status [
  | ok _ ↦ ok s.stdout
  | err e ↦
      err (wrapped (codes "exec in " ++ namespace ++ b'/' ∷ (pod ++ codes ": " ++ s.stderr)) e)
]

module _ {W : Type 0} (p : PodExec W) where
  -- `Exec`
  unfoldable pub exec : Text → Text → Text → List Text → Exec W Text
  exec namespace pod container command = do
    handle ← p.new_spdy_executor namespace pod (exec_options container command)
    λ w. let (s, w') = p.stream handle w in (streamed namespace pod s, w')

  abbrev pub pod_exec : PodExecutor W
  pod_exec = record { exec = exec }
