-- ===== src/Tests/Startups.antt =====
-- Runs of the start of the process and of the wrapper for browsers.
use cma_ssh.Prelude.{◌≡◌, refl, ap, ◌⊎◌, true, false, String, [], ◌∷◌}
use cma_ssh.Prelude.Int.{pos}
use cma_ssh.Prelude.Go.{ok, err, done}
use cma_ssh.Api.Meta.{StringMap, get_string}
use cma_ssh.Startup.{root_command, Runtime, operator, execute}
use cma_ssh.Startup.Exit.{Ended, execute-Serving}
use cma_ssh.Web.Http.{Request}
use cma_ssh.Web.Cors.{allow_cors}
use cma_ssh.Tests.Demo.{missing}

-- Nothing is installed, and everything can be.
abbrev fresh : Runtime
fresh = record {
  State = Unit {0};
  Config = Unit {0};
  Clientset = Unit {0};
  Crd = String;
  Manager = Unit {0};
  MaasController = Unit {0};
  Listener = Unit {0};
  get_config = λ s. (ok tt, s);
  new_for_config = λ c. ok tt;
  get_crd = λ c n s. (err missing, s);
  open_file = λ f. ok f;
  decode = λ t. ok t;
  create_crd = λ c x s. (ok x, s);
  new_manager = λ c s. (ok tt, s);
  add_to_scheme = λ m s. (ok tt, s);
  new_controller = λ m n s. (ok tt, s);
  watch = λ m n k h s. (ok tt, s);
  get_string = λ k. "";
  new_maas_controller = λ u k s. (ok tt, s);
  get_port = ok (pos 9020);
  listen = λ p s. (ok tt, s);
  serve = λ m c l s. (ok tt, s);
  parse_go_flags = ok tt;
  parse_args = ok root_command;
  variables = record { version = "1"; git_commit = "c"; build_date = "d" };
  version_output = "text";
  go = record { go_version = "go1.11"; compiler = "gc"; os = "linux"; arch = "amd64" };
  combined_output = λ command s. ("", s);
  trim_space = λ text. text;
  marshal = λ info. "{}";
  print = λ line s. s;
}

serves : execute fresh tt ≡ (0, tt)
unfolding execute operator cma_ssh.Startup.install_crds_if_not_found cma_ssh.Startup.install_each
    cma_ssh.Startup.install_crd cma_ssh.Prelude.Go.is_not_found cma_ssh.Startup.create_crd
    cma_ssh.Startup.add_to_manager cma_ssh.Startup.add cma_ssh.Startup.add_watches
    cma_ssh.Startup.new_client cma_ssh.Startup.create_web_server
serves = refl

execute-Serving_example : Ended fresh tt (execute fresh tt).1
execute-Serving_example = execute-Serving fresh tt (ap (λ p. p.0) serves)

abbrev simple : Request
simple = record { method = "GET"; path = "/"; headers = ("Origin", "http://a") ∷ [] }

-- A simple request from another origin reaches the handler, and the reply allows the origin.
allowed :
    get_string
      (allow_cors (λ request headers. headers) (λ headers. []) simple [])
      "Access-Control-Allow-Origin"
    ≡ "http://a"
unfolding get_string allow_cors cma_ssh.Prelude.string_discrete cma_ssh.Api.Meta.set_string
allowed = refl
