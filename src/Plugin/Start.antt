-- ===== src/Plugin/Start.antt =====
-- How LayerOrder's loop starts: with the ids that nothing must precede. And where it ends.
use cogitorium.Prelude.{
  count-sort_by, ◌≤◌, ◌<◌, ◌≡◌, refl, sym, ap, ◌∙◌, Bool, true, List, [], ◌∷◌, ◌==◌, ltb,
  if◌then◌else◌, Text, text_eq, text_eq→eq, text_eq_refl, filter, length, map, All, All-mono, arith,
  Bool-cases, inl, inr,
}
use cogitorium.Plugin.Order.{
  Plugin, Edge, holds, distinct, nodes, edges_of, indegree, Degrees, kahn, start_ready,
  ranks_before,
}
use cogitorium.Plugin.Degrees.{occurs, missing-nil}
use cogitorium.Plugin.Edges.{Within, add_edges-Within}
use cogitorium.Plugin.Kahn.{Sound, kahn-Sound}

pub holds-occurs : (v : Text) (xs : List Text) → holds v xs ≡ ltb 0 (occurs v xs)
holds-occurs v [] = refl
holds-occurs v (x ∷ xs) = ground (arith, holds-occurs v xs)

occurs-distinct : (v : Text) (xs : List Text) → occurs v (distinct xs) ≤ 1
unfolding distinct
occurs-distinct v [] = omega arith
occurs-distinct v (x ∷ xs) =
    let rest = occurs-distinct v xs in
    let known = holds-occurs x (distinct xs) in
    elim (Bool-cases (text_eq x v)) [
      | inl e ↦
          let same : occurs x (distinct xs) ≡ occurs v (distinct xs) =
            ap (λ y. occurs y (distinct xs)) (text_eq→eq x v e) in
          ground (arith, rest, known, same)
      | inr e ↦ ground (arith, rest, known)
    ]

holds-distinct : (v : Text) (xs : List Text) → holds v (distinct xs) ≡ holds v xs
unfolding distinct
holds-distinct v [] = refl
holds-distinct v (x ∷ xs) =
    let rest = holds-distinct v xs in
    elim (Bool-cases (text_eq x v)) [
      | inl e ↦
          let same : holds x (distinct xs) ≡ holds v (distinct xs) =
            ap (λ y. holds y (distinct xs)) (text_eq→eq x v e) in
          ground (arith, rest, same)
      | inr e ↦ ground (arith, rest)
    ]

pub occurs-filter :
    (q : Text → Bool) (v : Text) (xs : List Text)
    → occurs v (filter q xs) ≡ (if q v then occurs v xs else 0)
occurs-filter q v [] = ground arith
occurs-filter q v (x ∷ xs) =
    let rest = occurs-filter q v xs in
    elim (Bool-cases (text_eq x v)) [
      | inl e ↦ let same : q x ≡ q v = ap q (text_eq→eq x v e) in ground (arith, rest, same)
      | inr e ↦ ground (arith, rest)
    ]

start-Sound :
    (ids saved : List Text) (edges : List Edge)
    → Sound ids edges (start_ready ids saved edges) (indegree edges) []
unfolding start_ready
start-Sound ids saved edges =
    let ready : (v : Text)
        → occurs v (start_ready ids saved edges)
          ≡ (if indegree edges v == 0 then occurs v ids else 0) =
      (λ v.
        count-sort_by (λ x. text_eq x v) (ranks_before saved)
          (filter (λ id. indegree edges id == 0) ids)
        ∙ occurs-filter (λ id. indegree edges id == 0) v ids) in
    record {
      counted = λ v. sym (missing-nil edges v);
      once = λ v. ground (arith, ready v);
      complete = λ v h. ground (arith, ready v, missing-nil edges v);
      all_free = λ v h k. ground (arith, ready v, missing-nil edges v);
      layered = tt;
    }

indegree_known :
    (ids : List Text) (enabled : List Plugin) (edges : List Edge) (v : Text)
    → All (Within ids enabled) edges
    → 0 < indegree edges v
    → 0 < occurs v ids
unfolding indegree
indegree_known ids enabled [] v k h = absurd (omega arith)
indegree_known ids enabled (e ∷ edges) v k h = elim (Bool-cases (text_eq e.dependent v)) [
  | inl q ↦
      let here : holds v ids ≡ true = rw (text_eq→eq e.dependent v q) at (k.0.0) in
      ground (arith, here, holds-occurs v ids)
  | inr q ↦ indegree_known ids enabled edges v k.1 (ground arith)
]

All-hold :
    (ps qs : List Plugin)
    → ((v : Text) → holds v (map (λ p. p.id) ps) ≡ true → holds v (map (λ p. p.id) qs) ≡ true)
    → All (λ p. holds p.id (map (λ p. p.id) qs) ≡ true) ps
All-hold [] qs h = tt
All-hold (p ∷ ps) qs h =
    (h p.id (ground (arith, text_eq_refl p.id)), All-hold ps qs (λ v k. h v (ground (arith, k))))

nodes_hold : (enabled : List Plugin) → All (λ p. holds p.id (nodes enabled) ≡ true) enabled
unfolding nodes
nodes_hold enabled =
    All-mono (λ p. holds p.id (map (λ p. p.id) enabled) ≡ true)
      (λ p. holds p.id (distinct (map (λ p. p.id) enabled)) ≡ true) enabled
      (λ p h. holds-distinct p.id (map (λ p. p.id) enabled) ∙ h)
      (All-hold enabled enabled (λ v h. h))

pub holds-nodes :
    (enabled : List Plugin) (v : Text) → holds v (nodes enabled) ≡ holds v (map (λ p. p.id) enabled)
unfolding nodes
holds-nodes enabled v = holds-distinct v (map (λ p. p.id) enabled)

pub nodes_once : (enabled : List Plugin) (v : Text) → occurs v (nodes enabled) ≤ 1
unfolding nodes
nodes_once enabled v = occurs-distinct v (map (λ p. p.id) enabled)

pub edges_of-Within :
    (enabled : List Plugin) → All (Within (nodes enabled) enabled) (edges_of enabled)
unfolding edges_of
edges_of-Within enabled =
    add_edges-Within (nodes enabled) enabled enabled [] (nodes_hold enabled) (λ p m. m) tt

-- what the loop of `layer_order` ends with
abbrev pub end_of : List Plugin → List Text → List Text × Degrees
end_of enabled saved =
    let ids = nodes enabled in
    let edges = edges_of enabled in
    kahn (length ids) edges saved (start_ready ids saved edges) (indegree edges) []

pub end-Sound :
    (enabled : List Plugin) (saved : List Text)
    → Sound (nodes enabled) (edges_of enabled) [] (end_of enabled saved).1 (end_of enabled saved).0
end-Sound enabled saved =
    let ids = nodes enabled in
    let edges = edges_of enabled in
    kahn-Sound (length ids) ids saved edges (start_ready ids saved edges) (indegree edges) []
      (nodes_once enabled) (λ v h. indegree_known ids enabled edges v (edges_of-Within enabled) h)
      (omega arith) (start-Sound ids saved edges)
