-- ===== src/Web/Site.antt =====
-- pkg/ui/website/website.go and the servers of pkg/apiserver/apiserver.go. The files are generated,
-- and the gateway is generated code over grpc-gateway: they are parameters.
use cma_ssh.Prelude.{String, ◌<>◌, []}
use cma_ssh.Prelude.Int.{ℤ}
use cma_ssh.Prelude.Go.{Exec, Outcome, done, ◌>>◌}
use cma_ssh.Api.Meta.{StringMap}
use cma_ssh.Web.Http.{Handler, Library, ServeMux, handle, strip_prefix, serve_http}
use cma_ssh.Web.Cors.{allow_cors}

-- The four file systems, as `http.FileServer` shows them; the gateway to an endpoint, whose error
-- of registration is logged; the end of a pre-flight request; and `strconv.Itoa`.
pub record Assets (A : Type 0) : Type 0 where
  pub lib : Library A
  pub swagger_ui : Handler A
  pub swagger : Handler A
  pub api : Handler A
  pub homepage : Handler A
  pub gateway : String → Handler A
  pub finish : StringMap String → A
  pub itoa : ℤ → String

-- What the connections are: cmux hands each to the listener of the first matcher that takes it. The
-- servers run on their listeners from then on, and an error of theirs is logged.
pub record Connections (A : Type 0) : Type 1 where
  pub State : Type 0
  pub Listener : Type 0
  -- `MatchWithWriters` with the header "content-type" of gRPC, and `Match` with `HTTP1Fast`
  pub match_grpc : State → Listener × State
  pub match_http1 : State → Listener × State
  -- The server with the service of clusters and that of reflection
  pub serve_grpc : Listener → State → State
  pub serve_http1 : Listener → Handler A → State → State

module _ {A : Type 0} (assets : Assets A) where
  abbrev Wiring : Type 0
  Wiring = Exec (ServeMux A) (Unit {0})

  unfoldable pub serve_swagger : Wiring
  serve_swagger = handle "/swagger-ui/" (strip_prefix assets.lib "/swagger-ui/" assets.swagger_ui)

  unfoldable pub serve_swagger_json : Wiring
  serve_swagger_json = handle "/swagger/" (strip_prefix assets.lib "/swagger/" assets.swagger)

  unfoldable pub serve_api : Wiring
  serve_api = handle "/protobuf/" (strip_prefix assets.lib "/protobuf/" assets.api)

  unfoldable pub serve_homepage : Wiring
  serve_homepage = handle "/" (strip_prefix assets.lib "/" assets.homepage)

  unfoldable pub add_website_handles : Wiring
  add_website_handles = do serve_swagger; serve_swagger_json; serve_api; serve_homepage

  -- `addgRPCRestGateway`
  unfoldable pub add_rest_gateway : ℤ → Wiring
  add_rest_gateway port =
      handle "/api/" (allow_cors (assets.gateway ("localhost:" <> assets.itoa port)) assets.finish)

  -- The router of `addRestAndWebsite`
  unfoldable pub router : ℤ → Outcome (Unit {0}) × ServeMux A
  router port = (do add_website_handles; add_rest_gateway port) []

  module _ (net : Connections A) where
    unfoldable pub add_grpc_server : net.State → net.State
    add_grpc_server s = let (listener, s₁) = net.match_grpc s in net.serve_grpc listener s₁

    -- A panic of the goroutine that makes the router would end the process.
    abbrev served : net.Listener → Outcome (Unit {0}) × ServeMux A → Exec net.State (Unit {0})
    served listener (done _, mux) s =
        (done tt, net.serve_http1 listener (serve_http assets.lib mux) s)
    served listener (Outcome.fail e, mux) s = (Outcome.fail e, s)
    served listener (Outcome.panic x, mux) s = (Outcome.panic x, s)

    unfoldable pub add_rest_and_website : ℤ → Exec net.State (Unit {0})
    add_rest_and_website port s =
        let (listener, s₁) = net.match_http1 s in served listener (router port) s₁

    unfoldable pub add_servers_to_mux : ℤ → Exec net.State (Unit {0})
    add_servers_to_mux port s = add_rest_and_website port (add_grpc_server s)
