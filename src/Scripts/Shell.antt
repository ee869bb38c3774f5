-- ===== src/Scripts/Shell.antt =====
-- scripts/run-deployment-tests.js: the commands that the runner starts, from `sleepMs` to `redisAuthArgs`.
-- All run in the root of the repository. A process that is started is answered by a function of the machine
-- as it stands, so it may answer differently each time; time passes in processes and in `sleepMs`.
use node_red_contrib_bull.Prelude.{
  ℕ, ◌+◌, String, ◌<>◌, Bool, true, false, ◌&&◌, ◌||◌, List, [], ◌∷◌, ◌++◌, Option, none, some,
  ◌==◌, if◌then◌else◌,
}
use node_red_contrib_bull.Js.Number.{show_nat}
use node_red_contrib_bull.Js.Value.{Fields, end, Result, ok, throw}

-- What `spawnSync` is called with; `captured` stands for `stdio: "pipe"`, and `env` for what is set besides
-- the environment of the runner.
pub record Command : Type 0 where
  pub program : String
  pub args : List String
  pub env : Fields
  pub captured : Bool

-- What `spawnSync` returns: the message of `error`, the status, `none` after a signal, the texts, empty
-- where they are not captured, and how long the process ran.
pub record Exit : Type 0 where
  pub error : Option String
  pub status : Option ℕ
  pub stdout : String
  pub stderr : String
  pub took : ℕ

pub record Ran : Type 0 where
  pub command : Command
  pub exit : Exit

-- The clock, and the processes that ran, the last one first.
pub record Machine : Type 0 where
  pub now : ℕ
  pub log : List Ran

-- Node.js and the computer: `spawnSync`, `path.join`, `process.env` and `process.execPath`.
pub record System : Type 0 where
  pub spawn : Machine → Command → Exit
  pub path_join : List String → String
  pub variable : String → Option String
  pub exec_path : String

-- What a function returns or throws, and the machine after it.
pub record Outcome (A : Type 0) : Type 0 where
  pub result : Result A
  pub machine : Machine

abbrev pub sleep_ms : ℕ → Machine → Machine
sleep_ms ms m = record m { now = m.now + ms }

-- `result.status === 0`
abbrev pub succeeded : Option ℕ → Bool
succeeded none = false
succeeded (some n) = n == 0

abbrev pub show_status : Option ℕ → String
show_status none = "null"
show_status (some n) = show_nat n

abbrev pub join : List String → String → String
join [] separator = ""
join (s ∷ []) separator = s
join (s ∷ t ∷ ts) separator = s <> separator <> join (t ∷ ts) separator

-- What `run` makes of the result of `spawnSync`.
unfoldable pub checked : Command → Bool → Exit → Option String → Result Exit
checked c allow_failure exit (some message) = throw message
checked c allow_failure exit none =
    if succeeded exit.status || allow_failure
    then ok exit
    else throw (c.program <> " " <> join c.args " " <> " exited with " <> show_status exit.status)

-- `spawnSync` of a command: the process runs, and the clock moves on.
abbrev pub after : Machine → Command → Exit → Machine
after m c exit = record {
  now = m.now + exit.took;
  log = record { command = c; exit = exit } ∷ m.log;
}

abbrev pub quiet : String → List String → Command
quiet program args = record { program = program; args = args; env = end; captured = false }

abbrev pub no_error : Option String → Bool
no_error none = true
no_error (some _) = false

-- `docker` with `dockerCommand[0]`, and `dockerCommand.slice(1)`.
pub record Docker : Type 0 where
  pub program : String
  pub leading : List String

abbrev pub plain_docker : Docker
plain_docker = record { program = "docker"; leading = [] }

abbrev pub sudo_docker : Docker
sudo_docker = record { program = "sudo"; leading = "-n" ∷ "docker" ∷ [] }

abbrev pub docker_call : Docker → List String → Bool → Command
docker_call d args captured = record {
  program = d.program;
  args = d.leading ++ args;
  env = end;
  captured = captured;
}

module _ (sys : System) where
  unfoldable pub run : Command → Bool → Machine → Outcome Exit
  run c allow_failure m =
      let exit = sys.spawn m c in
      record { result = checked c allow_failure exit exit.error; machine = after m c exit }

  -- `canRun`, with the machine after it.
  unfoldable pub can_run : String → List String → Machine → Bool × Machine
  can_run program args m =
      let exit = sys.spawn m (quiet program args) in
      (no_error exit.error && succeeded exit.status, after m (quiet program args) exit)

  -- `canRun(a) && canRun(b)`: the second command runs only after the first succeeded.
  abbrev pub both_run : String → List String → List String → Machine → Bool × Machine
  both_run program first second m =
      let (one, m') = can_run program first m in
      let two = can_run program second m' in if one then two else (false, m')

  unfoldable pub resolve_docker_command : Machine → Docker × Machine
  resolve_docker_command m =
      let (plain, m') = both_run "docker" ("info" ∷ []) ("compose" ∷ "version" ∷ []) m in
      let (sudo, m'') =
        both_run "sudo" ("-n" ∷ "docker" ∷ "info" ∷ [])
          ("-n" ∷ "docker" ∷ "compose" ∷ "version" ∷ []) m' in
      if plain then (plain_docker, m') else (if sudo then sudo_docker else plain_docker, m'')

  unfoldable pub compose_args : String → List String → List String
  compose_args name args =
      "compose"
      ∷ "-p"
      ∷ ("node-red-contrib-bullmq" <> "-" <> name)
      ∷ "-f"
      ∷ sys.path_join ("test" ∷ "deployments" ∷ name ∷ "compose.yml" ∷ [])
      ∷ args

  unfoldable pub docker : Docker → List String → Bool → Machine → Outcome Exit
  docker d args allow_failure m = run (docker_call d args false) allow_failure m

  unfoldable pub docker_capture : Docker → List String → Machine → Outcome Exit
  docker_capture d args m = run (docker_call d args true) true m

abbrev pub redis_auth_args : List String
redis_auth_args = "--user" ∷ "node_red" ∷ "-a" ∷ "node-red-pass" ∷ "--no-auth-warning" ∷ []
