-- ===== src/Web/Http.antt =====
-- The parts of net/http that pkg/apiserver and pkg/ui/website use: handlers, `StripPrefix`, and the
-- `ServeMux` that chooses a handler by the longest pattern. No pattern of the program has a host.
use Prim.Native.Char.{code}
use cma_ssh.Prelude.{
  ℕ, suc, String, ◌<>◌, string_eq, ◌==◌, Bool, true, false, not, ◌&&◌, Option, none, some, List, [],
  ◌∷◌, ltb, if◌then◌else◌,
}
use cma_ssh.Prelude.Go.{Exec, done, panic, bad_pattern}
use cma_ssh.Prelude.Text.{◌=ℕ◌}
use cma_ssh.Api.Meta.{StringMap}

pub record Request : Type 0 where
  pub method : String
  pub path : String
  pub headers : StringMap String

-- From the request and the headers of the reply so far.
abbrev pub Handler : Type 0 → Type 0
Handler A = Request → StringMap String → A

-- `strings.TrimPrefix`, which says whether the prefix was there.
unfoldable pub trim_prefix : String → String → Option String
trim_prefix String.[] path = some path
trim_prefix (String.◌∷◌ c prefix) String.[] = none
trim_prefix (String.◌∷◌ c prefix) (String.◌∷◌ d path) =
    let rest = trim_prefix prefix path in if code c =ℕ code d then rest else none

abbrev pub has_prefix : String → String → Bool
has_prefix prefix path = elim (trim_prefix prefix path) [ none ↦ false | some _ ↦ true ]

unfoldable pub size : String → ℕ
size String.[] = 0
size (String.◌∷◌ c s) = suc (size s)

unfoldable pub ends_in_slash : String → Bool
ends_in_slash String.[] = false
ends_in_slash (String.◌∷◌ c String.[]) = code c =ℕ 47
ends_in_slash (String.◌∷◌ c (String.◌∷◌ d s)) = ends_in_slash (String.◌∷◌ d s)

-- What the library does beside choosing: `cleanPath`, and the two replies of its own.
pub record Library (A : Type 0) : Type 0 where
  pub clean_path : String → String
  pub redirect : String → A
  pub not_found : A

-- The map from patterns to handlers.
abbrev pub ServeMux : Type 0 → Type 0
ServeMux A = List (String × Handler A)

-- `pathMatch`
unfoldable pub path_match : String → String → Bool
path_match pattern path = if ends_in_slash pattern then has_prefix pattern path else pattern == path

module _ {A : Type 0} where
  unfoldable pub find_pattern : ServeMux A → String → Option (Handler A)
  find_pattern [] path = none
  find_pattern ((k, h) ∷ mux) path =
      let rest = find_pattern mux path in if k == path then some h else rest

  abbrev pub is_registered : ServeMux A → String → Bool
  is_registered mux path = elim (find_pattern mux path) [ none ↦ false | some _ ↦ true ]

  -- `ServeMux.Handle` panics on an empty pattern, and on one that is there.
  unfoldable pub handle : String → Handler A → Exec (ServeMux A) (Unit {0})
  handle pattern handler mux =
      if pattern == ""
      then (panic bad_pattern, mux)
      else if is_registered mux pattern
      then (panic bad_pattern, mux)
      else (done tt, (pattern, handler) ∷ mux)

  abbrev pub longer : String × Handler A → Option (String × Handler A) → Option (String × Handler A)
  longer e none = some e
  longer (k, h) (some (j, g)) = if ltb (size k) (size j) then some (j, g) else some (k, h)

  unfoldable pub longest : ServeMux A → String → Option (String × Handler A)
  longest [] path = none
  longest ((k, h) ∷ mux) path =
      let rest = longest mux path in if path_match k path then longer (k, h) rest else rest

  -- `match`: the pattern that is the path, or else the longest that matches it.
  unfoldable pub match_path : ServeMux A → String → Option (Handler A)
  match_path mux path = elim (find_pattern mux path) [
    | some h ↦ some h
    | none ↦ elim (longest mux path) [ none ↦ none | some (k, h) ↦ some h ]
  ]

  -- `shouldRedirect`: the path is missing a final slash.
  unfoldable pub should_redirect : ServeMux A → String → Bool
  should_redirect mux path =
      not (path == "")
      && not (is_registered mux path)
      && is_registered mux (path <> "/")
      && not (ends_in_slash path)

  -- `http.StripPrefix`, for a prefix that is not empty
  unfoldable pub strip_prefix : Library A → String → Handler A → Handler A
  strip_prefix lib prefix h request headers = elim (trim_prefix prefix request.path) [
    | none ↦ lib.not_found
    | some rest ↦ h (record request { path = rest }) headers
  ]

  abbrev pub cleaned : Library A → Request → String
  cleaned lib request =
      if request.method == "CONNECT" then request.path else lib.clean_path request.path

  abbrev pub dispatch : Library A → Option (Handler A) → Handler A
  dispatch lib none request headers = lib.not_found
  dispatch lib (some h) request headers = h request headers

  -- `ServeMux.ServeHTTP`; the request `OPTIONS *` does not get here.
  unfoldable pub serve_http : Library A → ServeMux A → Handler A
  serve_http lib mux request headers =
      let path = cleaned lib request in
      if should_redirect mux path
      then lib.redirect (path <> "/")
      else if path == request.path
      then dispatch lib (match_path mux path) request headers
      else lib.redirect path
