-- ===== src/Startup.antt =====
-- cmd/cma-ssh/cmd/root.go and version.go: the process starts. The definitions of the resources are installed, the
-- controllers are registered with the manager, and the servers run. The libraries for all that are
-- the record `Runtime`. An error of `operator` is logged and ends the process with code 1, and a
-- listener that cannot be made is a panic.
pub mod Crds
pub mod Serving
pub mod Exit
pub mod Version
use cma_ssh.Prelude.{
  ℕ, String, ◌<>◌, string_eq, ◌==◌, Bool, true, false, List, [], ◌∷◌, if◌then◌else◌,
}
use cma_ssh.Startup.Version.{Info, Variables, Go, get}
use cma_ssh.Prelude.Int.{ℤ, pos}
use cma_ssh.Prelude.Go.{
  Exec, Call, return, throw, crash, call, attempt, ◌>>=◌, ◌>>◌, Result, ok, err, Err, plain_error,
  Outcome, done, fail, panic, message, is_not_found, lift, unlistenable,
}

-- The kinds of objects that are watched, and what a change of one enqueues: the object itself, its
-- owner of a kind, or what a function of the program makes of it.
pub data Kind : Type 0 where
  cluster machine machine_set app_bundle : Kind

pub data Handler : Type 0 where
  itself : Handler
  owner : Kind → Handler
  cluster_of_namespace machine_to_machine_sets : Handler

pub record Controller : Type 0 where
  pub name : String
  pub watches : List (Kind × Handler)

-- `add` of the four packages of controllers.
abbrev pub appbundle_controller : Controller
appbundle_controller = record { name = "appbundle-controller"; watches = (app_bundle, itself) ∷ [] }

abbrev pub cluster_controller : Controller
cluster_controller = record {
  name = "cluster-controller";
  watches = (cluster, itself) ∷ (machine, cluster_of_namespace) ∷ [];
}

abbrev pub machineset_controller : Controller
machineset_controller = record {
  name = "machineset-controller";
  watches =
      (machine_set, itself)
      ∷ (machine, owner machine_set)
      ∷ (machine, machine_to_machine_sets)
      ∷ [];
}

abbrev pub machine_controller : Controller
machine_controller = record { name = "machine-controller"; watches = (machine, itself) ∷ [] }

-- `AddToManagerFuncs`, in the order in which Go initialises the files of the package
abbrev pub controllers : List Controller
controllers = appbundle_controller ∷ cluster_controller ∷ machineset_controller ∷ []

-- Those of pkg/webhook: there are none.
abbrev webhooks : List Controller
webhooks = []

-- The names of the definitions of resources, with the files that they are installed from.
abbrev pub crds : List (String × String)
crds =
    ("cnctclusters.cluster.cnct.sds.samsung.com", "/cluster_v1alpha1_cnctcluster.yaml")
    ∷ ("cnctmachines.cluster.cnct.sds.samsung.com", "/cluster_v1alpha1_cnctmachine.yaml")
    ∷ ("cnctmachinesets.cluster.cnct.sds.samsung.com", "/cluster_v1alpha1_cnctmachineset.yaml")
    ∷ ("appbundles.addons.cnct.sds.samsung.com", "/addons_v1alpha1_appbundle.yaml")
    ∷ []

-- What the arguments of the process ask for: its help, or `Run` of one of the two commands.
pub data Command : Type 0 where
  help_command version_command root_command : Command

-- What the libraries do: client-go, the embedded files, controller-runtime, gomaasapi, viper, net.
pub record Runtime : Type 1 where
  pub State : Type 0
  pub Config : Type 0
  pub Clientset : Type 0
  pub Crd : Type 0
  pub Manager : Type 0
  pub MaasController : Type 0
  pub Listener : Type 0
  pub get_config : Call State Config
  pub new_for_config : Config → Result Clientset
  pub get_crd : Clientset → String → Call State Crd
  pub open_file : String → Result String
  pub decode : String → Result Crd
  pub create_crd : Clientset → Crd → Call State Crd
  pub new_manager : Config → Call State Manager
  pub add_to_scheme : Manager → Call State (Unit {0})
  -- `controller.New`, and `Watch` on the controller of that name
  pub new_controller : Manager → String → Call State (Unit {0})
  pub watch : Manager → String → Kind → Handler → Call State (Unit {0})
  -- `viper.GetString`; `gomaasapi.NewController` by the base URL and the API key
  pub get_string : String → String
  pub new_maas_controller : String → String → Call State MaasController
  -- The flag `port`; `net.Listen` on the port
  pub get_port : Result ℤ
  pub listen : ℤ → Call State Listener
  -- The servers and the manager are started, and the process waits for them. The error of one ends
  -- the process.
  pub serve : Manager → MaasController → Listener → Call State (Unit {0})
  -- `flag.CommandLine.Parse` of no arguments; and cobra's reading of the arguments of the process,
  -- which says what is to be run.
  pub parse_go_flags : Result (Unit {0})
  pub parse_args : Result Command
  -- The variables of pkg/version, the flag `output`, Go's runtime, `exec.Command` with
  -- `CombinedOutput`, `strings.TrimSpace`, the bytes of `json.Marshal`, and the standard output
  pub variables : Variables
  pub version_output : String
  pub go : Go
  pub combined_output : String → State → String × State
  pub trim_space : String → String
  pub marshal : Info → String
  pub print : String → State → State

module _ (r : Runtime) where
  unfoldable pub create_crd : r.Clientset → String → Exec r.State (Unit {0})
  create_crd cs file = do
    text ← (λ s. (lift (r.open_file file), s))
    new_crd ← (λ s. (lift (r.decode text), s))
    created ← call (r.create_crd cs new_crd)
    return tt

  abbrev crd_missing : r.Clientset → String → Result r.Crd → Exec r.State (Unit {0})
  crd_missing cs file (ok _) = return tt
  crd_missing cs file (err e) = if is_not_found e then create_crd cs file else throw e

  -- One of the four parts of `installCrdsIfNotFound`, and all.
  unfoldable pub install_crd : r.Clientset → String → String → Exec r.State (Unit {0})
  install_crd cs name file = do got ← attempt (r.get_crd cs name); crd_missing cs file got

  unfoldable pub install_each : r.Clientset → List (String × String) → Exec r.State (Unit {0})
  install_each cs [] = return tt
  install_each cs ((name, file) ∷ rest) = do install_crd cs name file; install_each cs rest

  unfoldable pub install_crds_if_not_found : r.Config → Exec r.State (Unit {0})
  install_crds_if_not_found cfg = do
    cs ← (λ s. (lift (r.new_for_config cfg), s))
    install_each cs crds

  unfoldable pub add_watches : r.Manager → String → List (Kind × Handler) → Exec r.State (Unit {0})
  add_watches mgr name [] = return tt
  add_watches mgr name ((kind, handler) ∷ rest) = do
    call (r.watch mgr name kind handler)
    add_watches mgr name rest

  unfoldable pub add : r.Manager → Controller → Exec r.State (Unit {0})
  add mgr c = do call (r.new_controller mgr c.name); add_watches mgr c.name c.watches

  unfoldable pub add_to_manager : r.Manager → List Controller → Exec r.State (Unit {0})
  add_to_manager mgr [] = return tt
  add_to_manager mgr (f ∷ funcs) = do add mgr f; add_to_manager mgr funcs

  abbrev client_of : Result r.MaasController → Exec r.State r.MaasController
  client_of (ok controller) = return controller
  client_of (err e) = throw (plain_error ("error creating controller with version: " <> message e))

  -- `maas.NewClient`; the version is not used.
  unfoldable pub new_client : String → String → Exec r.State r.MaasController
  new_client api_url api_key = do
    made ← attempt (r.new_maas_controller api_url api_key)
    client_of made

  -- A port that cannot be read is logged and is 0.
  abbrev port_number : Result ℤ → ℤ
  port_number (ok port) = port
  port_number (err _) = pos 0

  abbrev listener_of : Result r.Listener → Exec r.State r.Listener
  listener_of (ok conn) = return conn
  listener_of (err e) = crash unlistenable

  unfoldable pub create_web_server : ℤ → Exec r.State r.Listener
  create_web_server port = do conn ← attempt (r.listen port); listener_of conn

  unfoldable pub operator : Exec r.State (Unit {0})
  operator = do
    cfg ← call r.get_config
    install_crds_if_not_found cfg
    mgr ← call (r.new_manager cfg)
    call (r.add_to_scheme mgr)
    add_to_manager mgr controllers
    maas_client ← new_client (r.get_string "api_url") (r.get_string "api_key")
    add mgr machine_controller
    add_to_manager mgr webhooks
    conn ← create_web_server (port_number r.get_port)
    call (r.serve mgr maas_client conn)

  -- `os.Exit(1)` is the answer to every error; the runtime of Go exits with 2 after a panic.
  abbrev exit_code : Outcome (Unit {0}) → ℕ
  exit_code (done _) = 0
  exit_code (fail _) = 1
  exit_code (panic _) = 2

  abbrev exit_with : Outcome (Unit {0}) × r.State → ℕ × r.State
  exit_with (outcome, s) = (exit_code outcome, s)

  -- The lines that `printVersion` prints for the flag `output`.
  unfoldable pub version_lines : Info → List String
  version_lines info =
      if r.version_output == "json"
      then (r.marshal info <> "\n") ∷ []
      else "Version Information:\n"
        ∷ ("\tVersion:\t\t" <> info.version <> "\n")
        ∷ "\tGit Data:\n"
        ∷ ("\t\tHash:\t\t" <> info.git_commit <> "\n")
        ∷ "\tBuild Data:\n"
        ∷ ("\t\tBuild Date:\t" <> info.build_date <> "\n")
        ∷ ("\t\tGo Version:\t" <> info.go_version <> "\n")
        ∷ ("\t\tCompiler:\t" <> info.compiler <> "\n")
        ∷ ("\t\tPlatform:\t" <> info.platform <> "\n\n")
        ∷ []

  unfoldable pub print_lines : List String → r.State → r.State
  print_lines [] s = s
  print_lines (line ∷ lines) s = print_lines lines (r.print line s)

  unfoldable pub print_version : r.State → r.State
  print_version s =
      let ((info, _), t) = get r.go r.combined_output r.trim_space r.variables s in
      print_lines (version_lines info) t

  -- `rootCmd.Execute` with the two commands.
  abbrev run_root : Result Command → r.State → ℕ × r.State
  run_root (err _) s = (1, s)
  run_root (ok help_command) s = (0, s)
  run_root (ok version_command) s = (0, print_version s)
  run_root (ok root_command) s = exit_with (operator s)

  abbrev run_parsed : Result (Unit {0}) → r.State → ℕ × r.State
  run_parsed (err _) s = (1, s)
  run_parsed (ok _) s = run_root r.parse_args s

  -- `Execute`, to the end of the process: its exit code.
  unfoldable pub execute : r.State → ℕ × r.State
  execute s = run_parsed r.parse_go_flags s
