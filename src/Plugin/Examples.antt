-- ===== src/Plugin/Examples.antt =====
-- Three plugins of which one wraps another, and two that require each other.
use cogitorium.Prelude.{
  to_lower, split, join, ◌≡◌, refl, false, List, [], ◌∷◌, Text, codes, text_eq, text_ltb, cut,
}
use cogitorium.Plugin.Order.{
  ordered, Plugin, distinct, nodes, add_edge, add_requires, add_overrides, add_edges, edges_of,
  after, indegree, free, kahn, reasons, moves, start_ready, layer_order,
}
use cogitorium.Plugin.Name.{
  row, Name, valid_segment, versionish, area_of, check_segments, parse_name,
}
use cogitorium.Plugin.Naming.{Reads, parse_name-Reads}
use cogitorium.Plugin.Layers.{Fine, layer_order-Fine, cycle_has_no_order}

abbrev plugin : Text → List Text → List Text → Plugin
plugin id requires overrides = record {
  id = id;
  broken = false;
  requires = requires;
  overrides = overrides;
}

-- `skin` overrides a row that `board` owns, but the operator's list has it first
abbrev wrapped : List Plugin
wrapped =
    plugin (codes "skin") [] (codes "board.row.task" ∷ [])
    ∷ plugin (codes "board") [] (codes "cog.row.gear" ∷ [])
    ∷ plugin (codes "zoo") (codes "absent" ∷ []) []
    ∷ []

abbrev saved_order : List Text
saved_order = codes "skin" ∷ codes "board" ∷ []

abbrev repaired : List Text
repaired = codes "board" ∷ codes "skin" ∷ codes "zoo" ∷ []

layer_order-Fine_example : Fine wrapped repaired
unfolding layer_order edges_of nodes distinct add_edges add_requires add_overrides add_edge cut
    indegree kahn free after start_ready moves reasons text_eq text_ltb
layer_order-Fine_example = layer_order-Fine wrapped saved_order repaired _ refl

abbrev looped : List Plugin
looped = plugin (codes "a") (codes "b" ∷ []) [] ∷ plugin (codes "b") (codes "a" ∷ []) [] ∷ []

cycle_has_no_order_example : ¬ (Fine looped (codes "a" ∷ codes "b" ∷ []))
unfolding layer_order edges_of nodes distinct add_edges add_requires add_overrides add_edge cut
    indegree kahn free after start_ready moves reasons text_eq text_ltb
cycle_has_no_order_example =
    cycle_has_no_order looped [] (codes "a" ∷ codes "b" ∷ []) (codes "a" ∷ codes "b" ∷ []) refl

-- `x` requires `b` and `c`, and the operator's list has it between them
abbrev second_edge : List Plugin
second_edge =
    plugin (codes "b") [] []
    ∷ plugin (codes "x") (codes "b" ∷ codes "c" ∷ []) []
    ∷ plugin (codes "c") [] []
    ∷ []

-- It is moved behind `c`, and no move is reported.
second_edge_unreported :
    layer_order second_edge (codes "b" ∷ codes "x" ∷ codes "c" ∷ [])
    ≡ ordered (codes "b" ∷ codes "c" ∷ codes "x" ∷ []) []
unfolding layer_order edges_of nodes distinct add_edges add_requires add_overrides add_edge cut
    indegree kahn free after start_ready moves reasons text_eq text_ltb
second_edge_unreported = refl

abbrev gear_row : Name
gear_row = record {
  namespace = codes "cog";
  area = row;
  subject = codes "gear.extra";
  full = codes "cog.row.gear.extra";
}

parse_name-Reads_example : Reads (codes "cog.row.gear.extra") gear_row
unfolding parse_name to_lower split join check_segments valid_segment versionish area_of text_eq
parse_name-Reads_example = parse_name-Reads (codes "cog.row.gear.extra") gear_row refl
