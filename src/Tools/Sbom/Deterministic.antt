-- ===== src/Tools/Sbom/Deterministic.antt =====
-- cargo_metadata_to_spdx.py: the text that it writes, for metadata that differ in order.
use Prim.Native.String.{◌++◌ as append}
use nlboot.Base.{String, Bool, ◌≡◌, ap, ◌↔◌, ok, ◌>>=◌}
use nlboot.Json.{Value, Fields, Items, arr, obj, nil, get_or}
use nlboot.Json.Pretty.{pretty}
use nlboot.Tools.Files.{parsed}
use nlboot.Tools.Sbom.Values.{iterate}
use nlboot.Tools.Sbom.Laws.{InItems}
use nlboot.Tools.Sbom.Relations.{build_sbom_unordered}
use nlboot.Tools.Sbom.Document.{sbom_fields, written}

module _ (show : Value → String) (equal : Value → Value → Bool) (document_name : String) where
  -- Neither the order nor the repetition of the workspace members, nor the order of the other
  -- members of the metadata, changes the text that cargo_metadata_to_spdx.py writes or the
  -- exception that it raises, for the same packages.
  pub written_unordered :
      (metadata other : Fields) (pkgs members others : Items)
      → iterate (get_or metadata "packages" (arr nil)) ≡ ok pkgs
      → iterate (get_or other "packages" (arr nil)) ≡ ok pkgs
      → iterate (get_or metadata "workspace_members" (arr nil)) ≡ ok members
      → iterate (get_or other "workspace_members" (arr nil)) ≡ ok others
      → ((v : Value) → InItems v members ↔ InItems v others)
      → written show equal (parsed (obj metadata)) document_name
        ≡ written show equal (parsed (obj other)) document_name
  unfolding written
  written_unordered metadata other pkgs members others listed listed' named named' alike =
      ap (λ r. r >>= λ sbom. ok (append (pretty 0 (obj (sbom_fields sbom))) "\n"))
        (build_sbom_unordered show equal document_name metadata other pkgs members others listed
          listed' named named' alike)
