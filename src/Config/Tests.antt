-- ===== src/Config/Tests.antt =====
-- Merging two concrete configurations.
use goss.Base.{String, ◌≡◌, refl, false, some, [], ◌∷◌}
use goss.Config.Merge.{lookup-merge_goss, or_else, files_kind, section}
use goss.Base.Maps.{insert, lookup}
use goss.Config.{merge_map, merge_sections, no_sections, merge_goss, GossConfig}
use goss.Samples.{sample_file}

abbrev with_file : String → GossConfig
with_file path = record {
  discovery = no_sections;
  sections = record no_sections { files = ("/etc/none", sample_file path false) ∷ [] };
  gossfiles = [];
}

lookup-merge_goss_example :
    (lookup "/etc/none" (section files_kind (merge_goss (with_file "/a") (with_file "/b")).sections)
      ≡ or_else
          (lookup "/etc/none" (section files_kind (with_file "/b").sections))
          (lookup "/etc/none" (section files_kind (with_file "/a").sections)))
    × (lookup "/etc/none"
          (section files_kind (merge_goss (with_file "/a") (with_file "/b")).discovery)
        ≡ or_else
            (lookup "/etc/none" (section files_kind (with_file "/b").discovery))
            (lookup "/etc/none" (section files_kind (with_file "/a").discovery)))
    × ((merge_goss (with_file "/a") (with_file "/b")).gossfiles ≡ [])
unfolding lookup
lookup-merge_goss_example =
    lookup-merge_goss files_kind "/etc/none" (with_file "/a") (with_file "/b") (refl, tt) tt

later_wins :
    lookup "/etc/none" (merge_goss (with_file "/a") (with_file "/b")).sections.files
    ≡ some (sample_file "/b" false)
unfolding lookup merge_goss merge_sections merge_map insert
later_wins = refl
