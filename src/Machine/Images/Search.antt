-- ===== src/Machine/Images/Search.antt =====
-- What `getImage` finds among the boot resources.
use cma_ssh.Prelude.{
  String, string_eq, Option-cases, Bool-cases, subst, ◌≡◌, ◌∙◌, refl, ◌≢◌, ◌⊎◌, inl, inr, false,
  Option, none, some, List, [], ◌∷◌, arith,
}
use cma_ssh.Prelude.Text.{split}
use cma_ssh.Prelude.Go.{ok}
use cma_ssh.World.{World}
use cma_ssh.World.Maas.{BootResource}
use cma_ssh.Machine.Images.{
  Image, set, set_field, set_fields, parse, find_in, find_same, uploaded_images, get_images,
  get_image, incomplete,
}

-- The fields that were parsed are these.
abbrev pub Fits : String → String → String → Option Image → Type 0
Fits os k8s type none = ⊥
Fits os k8s type (some i) = (i.os ≡ os) × (i.k8s_version ≡ k8s) × (i.instance_type ≡ type)

-- A boot resource that was uploaded and whose name gives these fields.
abbrev pub Offers : String → String → String → BootResource → Type 0
Offers os k8s type v = (v.type ≡ "Uploaded") × Fits os k8s type (parse v.name)

-- The text is the name of a resource of the list that offers the image.
abbrev pub OfferedBy : String → String → String → String → List BootResource → Type 0
OfferedBy os k8s type name [] = ⊥
OfferedBy os k8s type name (v ∷ br) =
    ((v.name ≡ name) × Offers os k8s type v) ⊎ OfferedBy os k8s type name br

raw-set : (key value : String) (i : Image) → (set key value i).raw ≡ i.raw
unfolding set
raw-set key value i = ground arith

raw-set_field : (field : List String) (i : Image) → (set_field field i).raw ≡ i.raw
unfolding set_field
raw-set_field [] i = refl
raw-set_field (key ∷ []) i = raw-set key "" i
raw-set_field (key ∷ value ∷ []) i = raw-set key value i
raw-set_field (key ∷ value ∷ more ∷ rest) i = refl

raw-set_fields : (fields : List String) (i : Image) → (set_fields fields i).raw ≡ i.raw
unfolding set_fields
raw-set_fields [] i = refl
raw-set_fields (field ∷ fields) i =
    raw-set_fields fields (set_field (split b'=' field) i) ∙ raw-set_field (split b'=' field) i

parse-raw : (name : String) (i : Image) → parse name ≡ some i → i.raw ≡ name
unfolding parse
parse-raw name i h = ground (
  arith,
  raw-set_fields (split b',' name)
      (record { os = ""; k8s_version = ""; instance_type = ""; raw = name }),
)

find_same-uploaded_images :
    (q : Image) (br : List BootResource) (j : Image)
    → find_same q (uploaded_images br) ≡ some j
    → OfferedBy q.os q.k8s_version q.instance_type j.raw br
unfolding find_same uploaded_images
find_same-uploaded_images q [] j h = ground arith
find_same-uploaded_images q (v ∷ br) j h = elim (Option-cases (parse v.name)) [
  | inl e ↦ ground (arith, find_same-uploaded_images q br j)
  | inr (i, e) ↦ ground (arith, find_same-uploaded_images q br j, parse-raw v.name i)
]

find_same-none :
    (q : Image) (br : List BootResource) (name : String)
    → OfferedBy q.os q.k8s_version q.instance_type name br
    → find_same q (uploaded_images br) ≢ none
unfolding find_same uploaded_images
find_same-none q [] name h = ground arith
find_same-none q (v ∷ br) name h = ground (arith, find_same-none q br name, parse-raw v.name)

parse_complete : (name : String) (i : Image) → parse name ≡ some i → incomplete i ≡ false
unfolding parse
parse_complete name i h = ground arith

-- What is offered has no empty field.
OfferedBy-complete :
    (q : Image) (br : List BootResource) (name : String)
    → OfferedBy q.os q.k8s_version q.instance_type name br
    → incomplete q ≡ false
OfferedBy-complete q [] name h = ground arith
OfferedBy-complete q (v ∷ br) name h = elim (Option-cases (parse v.name)) [
  | inl e ↦ ground (arith, OfferedBy-complete q br name)
  | inr (i, e) ↦ ground (arith, OfferedBy-complete q br name, parse_complete v.name i)
]

-- What `getImage` looks for.
abbrev query : String → String → String → Image
query os k8s type = record { os = os; k8s_version = k8s; instance_type = type; raw = "" }

module _ (w : World) where
  -- When MAAS lists its boot resources, `getImage` returns either the name of an uploaded resource
  -- of the list whose fields are the OS, the Kubernetes version and the type asked for, or "", and
  -- then no resource of the list offers these.
  pub get_image-OfferedBy :
      (os k8s type : String) (s : w.State) (br : List BootResource)
      → (w.maas.boot_resources s).0 ≡ ok br
      → OfferedBy os k8s type (get_image w os k8s type s).0 br
        ⊎ (((get_image w os k8s type s).0 ≡ "")
            × ((name : String) → ¬ OfferedBy os k8s type name br))
  unfolding get_image get_images find_in
  get_image-OfferedBy os k8s type s br h =
      let q = query os k8s type in
      elim (Bool-cases (incomplete q)) [
        | inl i ↦ inr (ground arith, λ name o. ground (arith, OfferedBy-complete q br name))
        | inr i ↦ elim (Option-cases (find_same q (uploaded_images br))) [
          | inl e ↦ inr (ground arith, λ name o. ground (arith, find_same-none q br name))
          | inr (j, e) ↦ inl (
              subst (λ x. OfferedBy os k8s type x br) {x = j.raw} (ground arith)
                (find_same-uploaded_images q br j e))
        ]
      ]
