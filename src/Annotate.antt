-- ===== src/Annotate.antt =====
-- annotate_baseref.go: the annotations that tell which base an image was made from.
use contain.Base.{ℕ, String, ◌<>◌, Option, none, some, List, [], ◌∷◌, ◌==◌, str_eq, if◌then◌else◌}
use Prim.Native.Char.{code}
use contain.Pushed.{Reference}

abbrev pub Annotations : Type 0
Annotations = List (String × String)

abbrev pub Annotator : Type 0 → Type 0
Annotator Image = Image → Image

-- The text before the first of a character, and the rest with it.
unfoldable pub cut_before : ℕ → String → Option (String × String)
cut_before n String.[] = none
cut_before n (String.◌∷◌ c s) =
    let rest = cut_before n s in
    if code c == n
    then some ("", String.◌∷◌ c s)
    else elim rest [ none ↦ none | some (b, r) ↦ some (String.◌∷◌ c b, r) ]

-- The part of a reference before its digest: nothing if there is none, or if it is empty.
unfoldable pub base_name : String → String
unfolding cut_before
base_name base = elim (cut_before b'@' base) [ none ↦ "" | some (b, _) ↦ b ]

-- A name under another host, where it has a host.
unfoldable pub with_host : String → String → String
unfolding cut_before
with_host host name = elim (cut_before b'/' name) [
  | none ↦ name
  | some (b, r) ↦ if str_eq b "" then name else host <> r
]

-- The parameters are `name.ParseReference`, `DigestStr`, `mutate.Annotations`, and the host that the
-- environment sets, or the empty text.
module _ {Image : Type 0} (parse_reference : String → Option Reference)
    (digest_str : Reference → String) (annotations : Annotations → Image → Image)
    (host : String) where
  abbrev named_base : String → String
  named_base base =
      if str_eq host ""
      then base_name base
      else if str_eq (base_name base) ""
      then ""
      else with_host host (base_name base)

  -- `NewBaseImageAnnotations`; none is an error.
  unfoldable pub new_base_image_annotations : String → Option (Annotator Image)
  unfolding base_name with_host
  new_base_image_annotations base = elim (parse_reference base) [
    | none ↦ none
    | some ref ↦
        if ref.is_digest
        then some (
            annotations (
              ("org.opencontainers.image.base.digest", digest_str ref)
              ∷ (if str_eq (named_base base) ""
                  then []
                  else ("org.opencontainers.image.base.name", named_base base) ∷ [])))
        else none
  ]
