-- ===== src/Machine/Images/RoundTrip.antt =====
-- A boot resource named by the three fields is parsed back.
use Prim.Native.Char.{Char}
use Prim.Native.String.append
use cma_ssh.Prelude.{
  String, ◌<>◌, string_eq, string_discrete, ◌≡◌, refl, ◌∙◌, ap, ◌≢◌, [], ◌∷◌, some, arith,
}
use cma_ssh.Prelude.Text.{split, Free}
use cma_ssh.Prelude.Text.Split.{split-Free, split-append, Free-append}
use cma_ssh.Machine.Images.{Image, parse, set_fields, set_field, set}

-- A value that can stand in a field: not empty, and without the two separators.
pub record IsValue (s : String) : Type 0 where
  pub some_text : s ≢ ""
  pub no_comma : Free b',' s
  pub no_equals : Free b'=' s

abbrev pub field : String → String → String
field key value = key <> ("=" <> value)

-- The name that packs an image's three fields: `os=…,k8s=…,type=…`.
abbrev pub image_name : String → String → String → String
image_name os k8s type = field "os" os <> ("," <> (field "k8s" k8s <> ("," <> field "type" type)))

separator : (c : Char) (s : String) → (String.◌∷◌ c String.[] <> s) ≡ String.◌∷◌ c s
separator c s = append.cons c String.[] s ∙ ap (String.◌∷◌ c) (append.nil s)

split-field :
    (key value : String)
    → Free b'=' key
    → IsValue value
    → split b'=' (field key value) ≡ key ∷ value ∷ []
split-field key value f v =
    rw (separator "=" value) (
      split-append b'=' key "=" value f refl
      ∙ ap (λ l. key ∷ l) (split-Free b'=' value v.no_equals))

split-comma :
    (first rest : String)
    → Free b',' first
    → split b',' (first <> ("," <> rest)) ≡ first ∷ split b',' rest
split-comma first rest f = rw (separator "," rest) (split-append b',' first "," rest f refl)

field-Free : (key value : String) → Free b',' key → IsValue value → Free b',' (field key value)
field-Free key value f v =
    Free-append b',' key _ f (Free-append b',' "=" value (omega arith) v.no_comma)

module _ (os k8s type : String) (o : IsValue os) (k : IsValue k8s) (t : IsValue type) where
  split-image_name :
      split b',' (image_name os k8s type) ≡ field "os" os ∷ field "k8s" k8s ∷ field "type" type ∷ []
  split-image_name =
      split-comma (field "os" os) _ (field-Free "os" os (omega arith) o)
      ∙ ap (λ l. field "os" os ∷ l)
          (split-comma (field "k8s" k8s) _ (field-Free "k8s" k8s (omega arith) k)
            ∙ ap (λ l. field "k8s" k8s ∷ l)
                (split-Free b',' _ (field-Free "type" type (omega arith) t)))

  abbrev start : Image
  start = record { os = ""; k8s_version = ""; instance_type = ""; raw = image_name os k8s type }

  abbrev packed : Image
  packed = record start { os = os; k8s_version = k8s; instance_type = type }

  set_fields-image_name : set_fields (split b',' (image_name os k8s type)) start ≡ packed
  unfolding set_fields set_field set string_discrete
  set_fields-image_name = rw split-image_name (
      ground (
        arith,
        split-field "os" os (omega arith) o,
        split-field "k8s" k8s (omega arith) k,
        split-field "type" type (omega arith) t,
      ))

  -- A name made of an OS, a version and a type, none of them empty or with a comma or an equals
  -- sign in it, is parsed to exactly these three, with the name as `raw`.
  pub parse-image_name : parse (image_name os k8s type) ≡ some packed
  unfolding parse
  parse-image_name = ground (arith, set_fields-image_name, o.some_text, k.some_text, t.some_text)
