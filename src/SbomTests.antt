-- ===== src/SbomTests.antt =====
-- A small SPDX document, and the theorems about its wrapping at concrete inputs.
use contain.Base.{String, true, false, none, some, []}
use contain.Base.{str_eq, if◌then◌else◌}
use contain.Pushed.{Artifact}
use contain.Sbom.{text, slice, nil, item, Object, empty, entry}
use contain.Sbom.Wrap.{Remote, Files, wrapped}
use contain.Sbom.Steps.{Extends}
use contain.Sbom.Extended.{wrapped-Extends}

abbrev offline : Remote String
offline = record {
  new_digest = λ insecure ref. none;
  context_name = λ d. d;
  registry_str = λ d. d;
  head = λ d. none;
  index_manifests = λ d. none;
  image_annotations = λ d. none;
  is_index = λ m. false;
  is_image = λ m. false;
  parse_ip = λ host. none;
}

abbrev document : Object
document =
    entry "documentDescribes" (slice (item (text "SPDXRef-app") nil))
      (entry "packages" (slice nil) empty)

abbrev files : Files
files = record {
  read_document = λ path. some document;
  read_builds = λ path. none;
  write_document = λ path doc. true;
  new_hash = λ s. if str_eq s "sha256:ab" then some ("sha256", "ab") else none;
  env_base_name = "";
  env_base_digest = "";
}

abbrev artifact : Artifact
artifact = record {
  image_name = "r/app";
  tag_ref = "r/app:1@sha256:ab";
  media_type = "";
  platforms = [];
  base_ref = "r/base@sha256:cd";
  output = none;
  reference = none;
  hash = "";
  config_hash = "";
}

wrapped-Extends_example : Extends document (wrapped offline files "" (some artifact) "v1" document)
wrapped-Extends_example = wrapped-Extends offline files "" (some artifact) "v1" document
