-- ===== src/Examples/Naming.antt =====
-- The theorems on names, links and the constructor, at concrete data.
use demo_colombia.Base.{true, ◌≡◌, ◌↔◌, refl, some, [], ◌∷◌, arith}
use demo_colombia.Base.Int.{pos}
use demo_colombia.Text.{codes}
use demo_colombia.Gst.Ensures.{Ensures}
use demo_colombia.Source.{source_bin_name}
use demo_colombia.Source.Names.{seen_index, source_bin_name_same}
use demo_colombia.Elements.Link.{link_pipeline_elements}
use demo_colombia.Elements.Linked.{Leaves, Reports, link_pipeline_elements-Reports}
use demo_colombia.Elements.Construct.{new_pipeline}
use demo_colombia.Elements.New.{IsNew, new_pipeline-IsNew}
use demo_colombia.Service.{add_sources}
use demo_colombia.Service.Filled.{IsFilled, add_sources-IsFilled}
use demo_colombia.Examples.{Pipeline, willing, ones, entry}
use demo_colombia.Examples.Building.{fresh, nothing_there}

source_bin_name_same_example :
    (source_bin_name (pos 1003) ≡ source_bin_name (pos 100)) ↔ (seen_index 1003 ≡ seen_index 100)
source_bin_name_same_example = source_bin_name_same 1003 100 (omega arith) (omega arith)

link_pipeline_elements-Reports_example :
    Leaves (Reports 0) (link_pipeline_elements fresh willing [])
link_pipeline_elements-Reports_example = link_pipeline_elements-Reports willing fresh []

new_pipeline-IsNew_example :
    Ensures
      (IsNew willing ones 2)
      (new_pipeline (λ f. some ones) ones 2 (codes "config.yml") true willing []).0
new_pipeline-IsNew_example =
    new_pipeline-IsNew willing (λ f. some ones) ones 2 (codes "config.yml") ones refl (omega arith)
      true []

fresh-IsFilled : IsFilled 0 fresh
fresh-IsFilled = record {
  own = λ i s e. absurd (nothing_there i e);
  unseen = λ i s e. absurd (nothing_there i e);
  few = omega arith;
  filled = λ e i lt. absurd (omega arith);
}

add_sources-IsFilled_example :
    Ensures (IsFilled 1) (add_sources true (entry ∷ []) fresh willing []).0
add_sources-IsFilled_example =
    add_sources-IsFilled willing true (entry ∷ []) 0 fresh [] (refl, tt) fresh-IsFilled

-- The first source's bin could not be made, and another source is counted.
abbrev gap : Pipeline
gap = record fresh { num_sources = 1 }
