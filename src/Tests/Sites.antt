-- ===== src/Tests/Sites.antt =====
-- Runs of the router, whose replies are texts.
use cma_ssh.Prelude.{String, ◌<>◌, ◌≡◌, refl, map, [], ◌∷◌}
use cma_ssh.Prelude.Int.{pos}
use cma_ssh.Prelude.Go.{done}
use cma_ssh.Web.Http.{Handler, Request, serve_http}
use cma_ssh.Web.Site.{Assets, Connections, router, add_servers_to_mux}
use cma_ssh.Web.Routes.{connected, route, add_servers_to_mux-route}

abbrev files : String → Handler String
files name request headers = name <> ":" <> request.path

abbrev texts : Assets String
texts = record {
  lib = record { clean_path = λ p. p; redirect = λ p. "to " <> p; not_found = "404" };
  swagger_ui = files "ui";
  swagger = files "json";
  api = files "protobuf";
  homepage = files "home";
  gateway = files;
  finish = λ headers. "";
  itoa = λ n. "9020";
}

-- The state is the handler that is served.
abbrev connections : Connections String
connections = record {
  State = Handler String;
  Listener = Unit {0};
  match_grpc = λ s. (tt, s);
  match_http1 = λ s. (tt, s);
  serve_grpc = λ l s. s;
  serve_http1 = λ l h s. h;
}

add_servers_to_mux-route_example :
    add_servers_to_mux texts connections (pos 9020) (files "none")
    ≡ (done tt, connected texts (pos 9020) connections (route texts (pos 9020)) (files "none"))
add_servers_to_mux-route_example =
    add_servers_to_mux-route texts (pos 9020) connections (files "none")

abbrev ask : String → String
ask path =
    serve_http texts.lib (router texts (pos 9020)).1
      (record { method = "GET"; path = path; headers = [] }) []

-- One path for each way to be answered.
answers :
    map ask
      ("/api/v1/cluster" ∷ "/swagger-ui/index.html" ∷ "/index.html" ∷ "/swagger" ∷ "none" ∷ [])
    ≡ "localhost:9020:/api/v1/cluster" ∷ "ui:index.html" ∷ "home:index.html" ∷ "to /swagger/"
      ∷ "404" ∷ []
unfolding serve_http cma_ssh.Web.Http.should_redirect cma_ssh.Prelude.string_discrete
    cma_ssh.Web.Http.find_pattern router cma_ssh.Web.Site.add_website_handles
    cma_ssh.Web.Site.serve_swagger cma_ssh.Web.Http.handle cma_ssh.Web.Site.serve_swagger_json
    cma_ssh.Web.Site.serve_api cma_ssh.Web.Site.serve_homepage cma_ssh.Web.Site.add_rest_gateway
    cma_ssh.Web.Http.match_path cma_ssh.Web.Http.longest cma_ssh.Web.Http.path_match
    cma_ssh.Web.Http.ends_in_slash cma_ssh.Web.Http.trim_prefix cma_ssh.Api.Meta.get_string
    cma_ssh.Web.Cors.allow_cors cma_ssh.Web.Http.size cma_ssh.Web.Http.strip_prefix
answers = refl
