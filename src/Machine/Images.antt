-- ===== src/Machine/Images.antt =====
-- pkg/controller/machine/images.go: the boot image for an OS, a Kubernetes version and a type.
pub mod RoundTrip
pub mod Search
use cma_ssh.Prelude.{
  String, string_eq, ◌==◌, Bool, true, false, not, ◌&&◌, ◌||◌, Option, none, some, List, [], ◌∷◌,
  if◌then◌else◌,
}
use cma_ssh.Prelude.Go.{ok, err}
use cma_ssh.Prelude.Text.{split}
use cma_ssh.World.{World}
use cma_ssh.World.Maas.{BootResource}

pub record Image : Type 0 where
  pub os : String
  pub k8s_version : String
  pub instance_type : String
  pub raw : String

unfoldable pub set : String → String → Image → Image
set key value i =
    if key == "os"
    then record i { os = value }
    else if key == "k8s"
    then record i { k8s_version = value }
    else if key == "type"
    then record i { instance_type = value }
    else if key == "standard"
    then record i { instance_type = key }
    else if key == "gpu"
    then record i { instance_type = key }
    else i

-- The `switch` on the number of parts of a field.
unfoldable pub set_field : List String → Image → Image
set_field (key ∷ []) i = set key "" i
set_field (key ∷ value ∷ []) i = set key value i
set_field _ i = i

unfoldable pub set_fields : List String → Image → Image
set_fields [] i = i
set_fields (field ∷ fields) i = set_fields fields (set_field (split b'=' field) i)

abbrev incomplete : Image → Bool
incomplete i = i.os == "" || i.k8s_version == "" || i.instance_type == ""

-- `none` for the second result `false`.
unfoldable pub parse : String → Option Image
parse raw =
    let i =
      set_fields (split b',' raw)
        (record { os = ""; k8s_version = ""; instance_type = ""; raw = raw }) in
    if incomplete i then none else some i

abbrev same : Image → Image → Bool
same img i =
    img.os == i.os && img.k8s_version == i.k8s_version && img.instance_type == i.instance_type

-- The loop of `findIn`.
unfoldable pub find_same : Image → List Image → Option Image
find_same i [] = none
find_same i (img ∷ images) =
    if same img i then some (record i { raw = img.raw }) else find_same i images

-- `none` for the result `false`; otherwise the image with its new `raw`.
unfoldable pub find_in : Image → List Image → Option Image
find_in i images = if incomplete i then none else find_same i images

-- The image of one boot resource, put before the others.
abbrev add_image : Option Image → List Image → List Image
add_image none images = images
add_image (some i) images = i ∷ images

-- The loop of `getImages`.
unfoldable pub uploaded_images : List BootResource → List Image
uploaded_images [] = []
uploaded_images (v ∷ br) =
    let images = uploaded_images br in
    if not (v.type == "Uploaded") then images else add_image (parse v.name) images

abbrev raw_of : Option Image → String
raw_of none = ""
raw_of (some i) = i.raw

module _ (w : World) where
  unfoldable pub get_images : w.State → List Image × w.State
  get_images s =
      let (r, s') = w.maas.boot_resources s in
      (elim r [ ok br ↦ uploaded_images br | err _ ↦ [] ], s')

  unfoldable pub get_image : String → String → String → w.State → String × w.State
  get_image os_version k8s_version instance_type s =
      let (images, s') = get_images s in
      (
        raw_of (
            find_in
              (record {
                os = os_version;
                k8s_version = k8s_version;
                instance_type = instance_type;
                raw = "";
              })
              images),
        s',
      )
