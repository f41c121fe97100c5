-- ===== src/Plugin/Order.antt =====
-- internal/plugin/order.go: LayerOrder, the order in which plugins compose. The keys of its maps are
-- the ids of the enabled plugins, each once. Its maps `after` and `indegree` are read off the one
-- list of edges, which stand in the order of their addition.
use cogitorium.Prelude.{
  ℕ, zero, suc, ◌+◌, ◌-◌, Bool, not, ◌&&◌, ◌||◌, Option, none, some, List, [], ◌∷◌, ◌++◌, ◌==◌, ltb,
  if◌then◌else◌, Text, codes, text_eq, text_ltb, cut, any, filter, find?, count, length, sort_by,
  map,
}

-- What LayerOrder reads of `Installed`.
pub record Plugin : Type 0 where
  pub id : Text
  pub broken : Bool
  pub requires : List Text
  pub overrides : List Text

-- why an edge is there: declared, or derived from the name that is overridden
pub data Why : Type 0 where
  required : Why
  overrides_name : Text → Why

pub record Edge : Type 0 where
  pub dependent : Text
  pub dependency : Text
  pub why : Why

-- `Move`
pub record Move : Type 0 where
  pub id : Text
  pub after : Text
  pub why : Why

pub data Outcome : Type 0 where
  ordered : List Text → List Move → Outcome
  cycle : List Text → Outcome

abbrev pub holds : Text → List Text → Bool
holds v xs = any (λ x. text_eq x v) xs

-- the ids, each once
unfoldable pub distinct : List Text → List Text
distinct [] = []
distinct (x ∷ xs) = let rest = distinct xs in if holds x rest then rest else x ∷ rest

unfoldable pub nodes : List Plugin → List Text
nodes enabled = distinct (map (λ p. p.id) enabled)

-- the place of an id in a list: the last one that has it, or `other`
abbrev pub place : Text → ℕ → ℕ → List Text → ℕ
place v i other [] = other
place v i other (x ∷ xs) = place v (i + 1) (if text_eq x v then i else other) xs

-- `rank`
abbrev pub rank : List Text → Text → ℕ
rank saved id = place id 0 (length saved) saved

abbrev pub is_edge : Text → Text → Edge → Bool
is_edge dependent dependency e = text_eq e.dependent dependent && text_eq e.dependency dependency

-- `edge`
unfoldable pub add_edge : List Text → Text → Text → Why → List Edge → List Edge
add_edge ids dependent dependency why edges =
    if text_eq dependent dependency
      || not (holds dependency ids)
      || any (is_edge dependent dependency) edges
    then edges
    else edges ++ record { dependent = dependent; dependency = dependency; why = why } ∷ []

unfoldable pub add_requires : List Text → Text → List Text → List Edge → List Edge
unfolding add_edge
add_requires ids id [] edges = edges
add_requires ids id (dep ∷ deps) edges =
    add_requires ids id deps (add_edge ids id dep required edges)

-- one overridden name: the namespace that it starts with, unless that is the plugin's own or the host's
abbrev pub add_override : List Text → Text → Text → Option (Text × Text) → List Edge → List Edge
add_override ids id name none edges = edges
add_override ids id name (some (namespace, rest)) edges =
    if text_eq namespace id || text_eq namespace (codes "cog")
    then edges
    else add_edge ids id namespace (overrides_name name) edges

unfoldable pub add_overrides : List Text → Text → List Text → List Edge → List Edge
unfolding add_edge
add_overrides ids id [] edges = edges
add_overrides ids id (name ∷ names) edges =
    add_overrides ids id names (add_override ids id name (cut name b'.') edges)

-- the loop over the plugins that adds the edges
unfoldable pub add_edges : List Text → List Plugin → List Edge → List Edge
unfolding add_requires add_overrides
add_edges ids [] edges = edges
add_edges ids (p ∷ ps) edges = add_edges ids ps (
    if p.broken
    then edges
    else add_overrides ids p.id p.overrides (add_requires ids p.id p.requires edges))

unfoldable pub edges_of : List Plugin → List Edge
edges_of enabled = add_edges (nodes enabled) enabled []

-- after[id]
unfoldable pub after : List Edge → Text → List Text
after [] id = []
after (e ∷ edges) id =
    let rest = after edges id in if text_eq e.dependency id then e.dependent ∷ rest else rest

-- `indegree`, before the loop
abbrev pub Degrees : Type 0
Degrees = Text → ℕ

unfoldable pub indegree : List Edge → Degrees
indegree edges v = count (λ e. text_eq e.dependent v) edges

-- sortByRank
abbrev pub ranks_before : List Text → Text → Text → Bool
ranks_before saved a b =
    ltb (rank saved a) (rank saved b) || (rank saved a == rank saved b && text_ltb a b)

abbrev pub sort_by_rank : List Text → List Text → List Text
sort_by_rank saved ids = sort_by (ranks_before saved) ids

-- indegree[dependent]--
abbrev pub lower : Text → Degrees → Degrees
lower id degrees v = if text_eq id v then degrees v - 1 else degrees v

-- the loop over after[id]: the degrees afterwards, and the ids that it freed
unfoldable pub free : List Text → Degrees → Degrees × List Text
free [] degrees = (degrees, [])
free (d ∷ ds) degrees =
    let lowered = lower d degrees in
    let rest = free ds lowered in (rest.0, if lowered d == 0 then d ∷ rest.1 else rest.1)

-- Kahn's loop, with what is ready, the degrees and what is out; a round for each id is enough fuel
unfoldable pub kahn :
    ℕ → List Edge → List Text → List Text → Degrees → List Text → List Text × Degrees
kahn zero edges saved ready degrees out = (out, degrees)
kahn (suc fuel) edges saved [] degrees out = (out, degrees)
kahn (suc fuel) edges saved (id ∷ ready) degrees out =
    let freed = free (after edges id) degrees in
    kahn fuel edges saved (sort_by_rank saved (ready ++ freed.1)) freed.0 (out ++ id ∷ [])

abbrev pub has_dependent : Text → Edge → Bool
has_dependent v e = text_eq e.dependent v

-- `reason`: the first edge of each dependent
unfoldable pub reasons : List Text → List Edge → List Move
reasons [] edges = []
reasons (id ∷ ids) edges =
    let rest = reasons ids edges in
    elim (find? (has_dependent id) edges) [
      | none ↦ rest
      | some e ↦ record { id = id; after = e.dependency; why = e.why } ∷ rest
    ]

-- what moved, in the final order
unfoldable pub moves : List Text → List Text → List Text → List Edge → List Move
unfolding reasons
moves ids saved out edges =
    sort_by (λ a b. ltb (place a.id 0 0 out) (place b.id 0 0 out))
      (filter (λ m. ltb (rank saved m.id) (rank saved m.after)) (reasons ids edges))

unfoldable pub start_ready : List Text → List Text → List Edge → List Text
start_ready ids saved edges = sort_by_rank saved (filter (λ id. indegree edges id == 0) ids)

abbrev pub finish : List Text → List Text → List Edge → List Text × Degrees → Outcome
finish ids saved edges (out, degrees) =
    if length out == length ids
    then ordered out (moves ids saved out edges)
    else cycle (sort_by text_ltb (filter (λ id. ltb 0 (degrees id)) ids))

-- LayerOrder
unfoldable pub layer_order : List Plugin → List Text → Outcome
unfolding edges_of kahn start_ready moves
layer_order enabled saved =
    let ids = nodes enabled in
    let edges = edges_of enabled in
    finish ids saved edges
      (kahn (length ids) edges saved (start_ready ids saved edges) (indegree edges) [])
