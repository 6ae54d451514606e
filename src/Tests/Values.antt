-- ===== src/Tests/Values.antt =====
-- Runs of the functions on plain values.
use Prim.Native.Nat.{◌/◌}
use cma_ssh.Prelude.{
  ◌+◌, ◌*◌, zero, suc, String, ◌<>◌, string_eq, ◌≡◌, refl, ◌≢◌, ◌⊎◌, false, Option, none, some,
  List, [], ◌∷◌, arith,
}
use cma_ssh.Prelude.Go.{ok}
use cma_ssh.Api.Meta.{Time, second}
use cma_ssh.Api.Phase.{ready_machine, error_machine}
use cma_ssh.Api.Machine.{CnctMachine}
use cma_ssh.World.{World}
use cma_ssh.Cert.{CaBundle, ca_bundle_from_map, merge_with_map}
use cma_ssh.Cert.RoundTrip.{ca_bundle_from_map-merge_with_map}
use cma_ssh.Machine.Images.{get_image, parse}
use cma_ssh.Machine.Images.RoundTrip.{IsValue, image_name, parse-image_name}
use cma_ssh.Machine.Images.Search.{OfferedBy, get_image-OfferedBy}
use cma_ssh.Machine.Create.Token.{expires_soon, bootstrap_secret, token_of}
use cma_ssh.Machine.Create.Token.Lifetime.{Cut, bootstrap_secret-reused}
use cma_ssh.World.Maas.{BootResource}
use cma_ssh.Tests.Demo.{up, base, in_phase, x1, x1-nonempty}

abbrev machines : List CnctMachine
machines = in_phase ready_machine ∷ in_phase error_machine ∷ []

abbrev bundle : CaBundle
bundle = record {
  root = "a";
  root_key = "b";
  k8s = "c";
  k8s_key = "d";
  etcd = "e";
  etcd_key = "f";
  front_proxy = "g";
  front_proxy_key = "h";
  k8s_client = "i";
  k8s_client_key = "j";
}

merge_with_map_example :
    ca_bundle_from_map (merge_with_map bundle (("root.crt", "old") ∷ [])) ≡ ok bundle
merge_with_map_example = ca_bundle_from_map-merge_with_map bundle (("root.crt", "old") ∷ [])

abbrev resources : List BootResource
resources = record { name = "os=ubuntu-xenial,k8s=1.13.5,type=standard"; type = "Uploaded" } ∷ []

get_image_example :
    OfferedBy "ubuntu-xenial" "1.13.5" "standard"
      (get_image up "ubuntu-xenial" "1.13.5" "standard" tt).0
      resources
    ⊎ (((get_image up "ubuntu-xenial" "1.13.5" "standard" tt).0 ≡ "")
        × ((name : String) → ¬ OfferedBy "ubuntu-xenial" "1.13.5" "standard" name resources))
get_image_example = get_image-OfferedBy up "ubuntu-xenial" "1.13.5" "standard" tt resources refl

x1-IsValue : IsValue x1
x1-IsValue = record {
  some_text = x1-nonempty;
  no_comma = (omega arith, (omega arith, tt));
  no_equals = (omega arith, (omega arith, tt));
}

parse_example :
    parse (image_name x1 x1 x1)
    ≡ some (record { os = x1; k8s_version = x1; instance_type = x1; raw = image_name x1 x1 x1 })
parse_example = parse-image_name x1 x1 x1 x1-IsValue x1-IsValue x1-IsValue

-- A time is written by so many strokes and one more.
unfoldable strokes : Time → String
strokes zero = x1
strokes (suc t) = String.◌∷◌ "x" (strokes t)

-- The number of characters after the second.
unfoldable count_strokes : String → Option Time
count_strokes String.[] = none
count_strokes (String.◌∷◌ c s) = elim (count_strokes s) [ none ↦ some 0 | some t ↦ some (suc t) ]

-- The text is of the whole seconds.
abbrev clocked : World
clocked = record base {
  host = record base.host {
    format_rfc3339 = λ t. strokes (t / second);
    parse_rfc3339 = λ t. elim (count_strokes t) [
      | none ↦ none
      | some zero ↦ none
      | some (suc n) ↦ some (n * second)
    ];
  };
}

strokes-nonempty : (t : Time) → strokes t ≢ ""
unfolding strokes
strokes-nonempty zero e = x1-nonempty e
strokes-nonempty (suc t) e = absurd (cc)

count_strokes-strokes : (t : Time) → count_strokes (strokes t) ≡ some (suc t)
unfolding strokes count_strokes
count_strokes-strokes zero = refl
count_strokes-strokes (suc t) = rw (count_strokes-strokes t) refl

Cut-format : (t : Time) → Cut clocked t (clocked.host.parse_rfc3339 (clocked.host.format_rfc3339 t))
Cut-format t = rw (Cut, count_strokes-strokes (t / second)) (omega arith, omega arith)

bootstrap_secret_example :
    (expires_soon clocked (1900 * second) (bootstrap_secret clocked "ab" "cd" (1000 * second + 7))
      ≡ false)
    × (token_of (bootstrap_secret clocked "ab" "cd" (1000 * second + 7)) ≡ "ab" <> "." <> "cd")
bootstrap_secret_example =
    bootstrap_secret-reused clocked "ab" "cd" (1000 * second + 7) (1900 * second)
      (λ t. strokes-nonempty (t / second)) Cut-format (omega arith)
