-- ===== src/Web/Routes.antt =====
-- Where the router sends a path.
use mathlib.Core.Path.{fun_ext}
use text.Mathlib.TextLemmas.{append_cancel_right}
use cma_ssh.Prelude.{
  String, ◌<>◌, string_eq, ◌==◌, ◌≡◌, refl, ap, Bool, true, false, ◌||◌, ◌&&◌, not, ◌⊎◌, inl, inr,
  Option, none, some, List, [], ◌∷◌, if◌then◌else◌, arith,
}
use cma_ssh.Prelude.Int.{ℤ}
use cma_ssh.Prelude.Go.{done}
use cma_ssh.Api.Meta.{StringMap}
use cma_ssh.Web.Http.{
  Request, Handler, Library, ServeMux, trim_prefix, find_pattern, longest, match_path, dispatch,
  strip_prefix, cleaned, should_redirect, is_registered, ends_in_slash, serve_http,
}
use cma_ssh.Web.Cors.{allow_cors}
use cma_ssh.Web.Site.{Assets, Connections, router, add_servers_to_mux}
use cma_ssh.Web.Prefixes.{has_prefix_apart, trim_prefix_at, trim_prefix_whole}

module _ {A : Type 0} (assets : Assets A) (port : ℤ) where
  abbrev gateway : Handler A
  gateway = allow_cors (assets.gateway ("localhost:" <> assets.itoa port)) assets.finish

  -- The handler that gets what follows the prefix, or else the next one.
  abbrev under : String → Handler A → A → Handler A
  under prefix h next request headers = elim (trim_prefix prefix request.path) [
    | some rest ↦ h (record request { path = rest }) headers
    | none ↦ next
  ]

  -- The gateway keeps the whole path, and the home page is what is left.
  abbrev by_prefix : Handler A
  by_prefix request headers = elim (trim_prefix "/api/" request.path) [
    | some _ ↦ gateway request headers
    | none ↦
        under "/swagger-ui/" assets.swagger_ui
          (under "/swagger/" assets.swagger
            (under "/protobuf/" assets.api
              (under "/" assets.homepage assets.lib.not_found request headers) request headers)
            request headers)
          request headers
  ]

  abbrev is_bare : String → Bool
  is_bare path =
      path == "/api" || path == "/swagger-ui" || path == "/swagger" || path == "/protobuf"

  abbrev pub route : Handler A
  route request headers =
      let path = cleaned assets.lib request in
      if is_bare path
      then assets.lib.redirect (path <> "/")
      else if path == request.path
      then by_prefix request headers
      else assets.lib.redirect path

  abbrev entries : ServeMux A
  entries =
      ("/api/", gateway)
      ∷ ("/", strip_prefix assets.lib "/" assets.homepage)
      ∷ ("/protobuf/", strip_prefix assets.lib "/protobuf/" assets.api)
      ∷ ("/swagger/", strip_prefix assets.lib "/swagger/" assets.swagger)
      ∷ ("/swagger-ui/", strip_prefix assets.lib "/swagger-ui/" assets.swagger_ui)
      ∷ []

  router_lem : router assets port ≡ (done tt, entries)
  unfolding router cma_ssh.Web.Site.add_website_handles cma_ssh.Web.Site.add_rest_gateway
      cma_ssh.Web.Site.serve_swagger cma_ssh.Web.Site.serve_swagger_json cma_ssh.Web.Site.serve_api
      cma_ssh.Web.Site.serve_homepage cma_ssh.Web.Http.handle cma_ssh.Web.Http.find_pattern
      cma_ssh.Prelude.string_discrete
  router_lem = refl

  match_path-by_prefix :
      (request : Request) (headers : StringMap String)
      → dispatch assets.lib (match_path entries request.path) request headers
        ≡ by_prefix request headers
  unfolding trim_prefix match_path find_pattern longest strip_prefix cma_ssh.Web.Http.path_match
      cma_ssh.Web.Http.size cma_ssh.Web.Http.ends_in_slash cma_ssh.Web.Prefixes.diverge
  match_path-by_prefix request headers = ground (
    arith,
    trim_prefix_whole "/" request.path,
    trim_prefix_whole "/api/" request.path,
    trim_prefix_whole "/protobuf/" request.path,
    trim_prefix_whole "/swagger/" request.path,
    trim_prefix_whole "/swagger-ui/" request.path,
    trim_prefix_at "/api/" "/" request.path none refl,
    trim_prefix_at "/protobuf/" "/" request.path none refl,
    trim_prefix_at "/swagger/" "/" request.path none refl,
    trim_prefix_at "/swagger-ui/" "/" request.path none refl,
    has_prefix_apart "/api/" "/protobuf/" request.path refl,
    has_prefix_apart "/api/" "/swagger/" request.path refl,
    has_prefix_apart "/api/" "/swagger-ui/" request.path refl,
    has_prefix_apart "/protobuf/" "/swagger/" request.path refl,
    has_prefix_apart "/protobuf/" "/swagger-ui/" request.path refl,
    has_prefix_apart "/swagger/" "/swagger-ui/" request.path refl,
  )

  -- The pattern is the path with a slash.
  slash_lem :
      (k pattern path : String) → k <> "/" ≡ pattern → (pattern == path <> "/") ≡ (path == k)
  slash_lem k pattern path e = ground (arith, e, append_cancel_right path k "/")

  abbrev CanLackSlash : String → Type 0
  CanLackSlash path =
      ((path == "") ≡ false) × (is_registered entries path ≡ false) × (ends_in_slash path ≡ false)

  CanLackSlash-at : (k path : String) → CanLackSlash k → path ≡ k → CanLackSlash path
  CanLackSlash-at k path h e = rw e h

  path_cases :
      (path : String)
      → is_bare path ≡ true
      → (path ≡ "/api") ⊎ (path ≡ "/swagger-ui") ⊎ (path ≡ "/swagger") ⊎ (path ≡ "/protobuf")
  path_cases path h = ground arith

  is_bare-CanLackSlash : (path : String) → is_bare path ≡ true → CanLackSlash path
  unfolding find_pattern ends_in_slash cma_ssh.Prelude.string_discrete
  is_bare-CanLackSlash path h = elim (path_cases path h) [
    | inl e ↦ CanLackSlash-at "/api" path (refl, refl, refl) e
    | inr (inl e) ↦ CanLackSlash-at "/swagger-ui" path (refl, refl, refl) e
    | inr (inr (inl e)) ↦ CanLackSlash-at "/swagger" path (refl, refl, refl) e
    | inr (inr (inr e)) ↦ CanLackSlash-at "/protobuf" path (refl, refl, refl) e
  ]

  is_registered-slash :
      (path : String) → is_registered entries (path <> "/") ≡ (path == "" || is_bare path)
  unfolding find_pattern
  is_registered-slash path = ground (
    arith,
    slash_lem "" "/" path refl,
    slash_lem "/api" "/api/" path refl,
    slash_lem "/protobuf" "/protobuf/" path refl,
    slash_lem "/swagger" "/swagger/" path refl,
    slash_lem "/swagger-ui" "/swagger-ui/" path refl,
  )

  redirect_cases :
      (empty bare registered slash : Bool)
      → (bare ≡ true → (empty ≡ false) × (registered ≡ false) × (slash ≡ false))
      → (not empty && not registered && (empty || bare) && not slash) ≡ bare
  redirect_cases empty bare registered slash h = ground arith

  -- A path that lacks only the slash of a pattern is one of the four.
  should_redirect-is_bare : (path : String) → should_redirect entries path ≡ is_bare path
  unfolding should_redirect
  should_redirect-is_bare path = rw is_registered-slash (
      redirect_cases (path == "") (is_bare path) (is_registered entries path) (ends_in_slash path)
        (is_bare-CanLackSlash path))

  pub serve_http-route :
      (request : Request) (headers : StringMap String)
      → serve_http assets.lib entries request headers ≡ route request headers
  unfolding serve_http
  serve_http-route request headers = ground (
    arith,
    should_redirect-is_bare (cleaned assets.lib request),
    match_path-by_prefix request headers,
  )

  -- The state once gRPC has the first listener, and this handler the second.
  abbrev pub connected : (net : Connections A) → Handler A → net.State → net.State
  connected net handler s =
      let (grpc, s₁) = net.match_grpc s in
      let (http, s₂) = net.match_http1 (net.serve_grpc grpc s₁) in net.serve_http1 http handler s₂

  -- `AddServersToMux` never panics. It asks for the connections of gRPC first, and serves those of
  -- HTTP/1 that are left by a router that sends each request where `route` does: a path that lacks
  -- only the last slash of "/api/", "/swagger-ui/", "/swagger/" or "/protobuf/" is redirected to it,
  -- a path that is not clean to the clean one, and otherwise a path below one of the four goes to the
  -- gateway, whole, or to the files of that name, without the prefix, and every other path below "/"
  -- to the files of the home page.
  pub add_servers_to_mux-route :
      (net : Connections A) (s : net.State)
      → add_servers_to_mux assets net port s ≡ (done tt, connected net route s)
  unfolding add_servers_to_mux cma_ssh.Web.Site.add_rest_and_website
      cma_ssh.Web.Site.add_grpc_server
  add_servers_to_mux-route net s = rw router_lem (
      ap (λ h. (done tt, connected net h s))
        (fun_ext λ request. fun_ext λ headers. serve_http-route request headers))
