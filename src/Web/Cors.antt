-- ===== src/Web/Cors.antt =====
-- pkg/apiserver/apiserver.go: the wrapper that lets browsers call the gateway from any origin. Names
-- of headers are in their canonical form.
use cma_ssh.Prelude.{String, string_eq, ◌==◌, ◌&&◌, not, if◌then◌else◌}
use cma_ssh.Api.Meta.{StringMap, get_string, set_string}
use cma_ssh.Web.Http.{Handler}

-- The headers that a pre-flight request gets.
unfoldable pub preflight_handler : StringMap String → StringMap String
preflight_handler headers =
    set_string (set_string headers "Access-Control-Allow-Headers" "Content-Type,Accept")
      "Access-Control-Allow-Methods" "GET,HEAD,POST,PUT,DELETE"

module _ {A : Type 0} (serve : Handler A) (finish : StringMap String → A) where
  -- `serve` is the handler that is wrapped, and `finish` ends the reply with its headers alone.
  unfoldable pub allow_cors : Handler A
  allow_cors request headers =
      if get_string request.headers "Origin" == ""
      then serve request headers
      else let allowed =
          set_string headers "Access-Control-Allow-Origin" (get_string request.headers "Origin") in
        if request.method == "OPTIONS"
          && not (get_string request.headers "Access-Control-Request-Method" == "")
        then finish (preflight_handler allowed)
        else serve request allowed
