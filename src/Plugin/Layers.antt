-- ===== src/Plugin/Layers.antt =====
-- What LayerOrder promises: every enabled plugin once, after all that its manifest wants before it;
-- or a loop, and then there is no such order.
use cogitorium.Prelude.{
  ◌≤◌, ◌<◌, ◌≡◌, refl, sym, ap, ◌∙◌, true, false, ◌&&◌, List, [], ◌∷◌, ◌++◌, ◌==◌, ltb, Text,
  text_eq, text_eq→eq, any, length, map, All, any-append, arith, ◌⊎◌, Bool-cases, inl, inr,
}
use cogitorium.Plugin.Order.{
  Plugin, Edge, Move, ordered, cycle, holds, nodes, edges_of, is_edge, Degrees, finish, layer_order,
}
use cogitorium.Plugin.Degrees.{occurs, missing}
use cogitorium.Plugin.Edges.{Wants, Within, edges_of_all}
use cogitorium.Plugin.Kahn.{Layered, Sound, length_of_occurs, append_nil, append_assoc}
use cogitorium.Plugin.Start.{
  holds-occurs, holds-nodes, nodes_once, edges_of-Within, end_of, end-Sound,
}

-- Wherever `b` stands in a list, `a` stands before it.
abbrev pub Before : Text → Text → List Text → Type 0
Before a b out = (xs ys : List Text) → out ≡ xs ++ b ∷ ys → holds a xs ≡ true

-- An order that a list of plugins may be layered in: each once, after all that it wants.
pub record Fine (enabled : List Plugin) (out : List Text) : Type 0 where
  pub same_ids : (v : Text) → holds v out ≡ holds v (map (λ p. p.id) enabled)
  pub once : (v : Text) → occurs v out ≤ 1
  pub wanted :
      (a b : Text)
      → Wants enabled a b
      → text_eq a b ≡ false
      → holds b (map (λ p. p.id) enabled) ≡ true
      → Before b a out

Layered-at :
    (edges : List Edge) (seen vs xs : List Text) (b : Text) (ys : List Text)
    → vs ≡ xs ++ b ∷ ys
    → Layered edges seen vs
    → missing edges (seen ++ xs) b ≡ 0
Layered-at edges seen vs xs b ys e h = go xs seen (rw e at h)
  where
    go :
        (xs seen : List Text) → Layered edges seen (xs ++ b ∷ ys) → missing edges (seen ++ xs) b ≡ 0
    go [] seen h = rw (append_nil seen) (h.0)
    go (x ∷ xs) seen h = rw (← append_assoc seen x xs) (go xs (seen ++ x ∷ []) h.1)

missing_edge :
    (edges : List Edge) (out : List Text) (a b : Text)
    → any (is_edge a b) edges ≡ true
    → missing edges out a ≡ 0
    → holds b out ≡ true
missing_edge [] out a b h k = cc
missing_edge (e ∷ edges) out a b h k = elim (Bool-cases (is_edge a b e)) [
  | inl q ↦
      let same : occurs e.dependency out ≡ occurs b out =
        ap (λ v. occurs v out) (text_eq→eq e.dependency b (ground arith)) in
      ground (arith, same, holds-occurs b out)
  | inr q ↦ missing_edge edges out a b (ground arith) (ground arith)
]

finish_ordered :
    (ids saved : List Text) (edges : List Edge) (end : List Text × Degrees) (out : List Text)
    (moved : List Move)
    → finish ids saved edges end ≡ ordered out moved
    → (end.0 ≡ out) × (length end.0 ≡ length ids)
finish_ordered ids saved edges (o, degrees) out moved h =
    elim (Bool-cases (length o == length ids)) [
      | inl e ↦ (cc (rw e at h), ground arith)
      | inr e ↦ cc (rw e at h)
    ]

-- Where the loop puts out as many ids as there are, it puts out each of them.
all_out :
    (ids : List Text) (edges : List Edge) (degrees : Degrees) (out : List Text) (v : Text)
    → Sound ids edges [] degrees out
    → length out ≡ length ids
    → occurs v ids ≤ occurs v out
all_out ids edges degrees out v s e = elim (Bool-cases (ltb (occurs v out) (occurs v ids))) [
  | inr q ↦ ground arith
  | inl q ↦
      let more : length (v ∷ out) ≤ length ids =
        length_of_occurs (v ∷ out) ids (λ w. one_more q w (Bool-cases (text_eq v w))) in
      absurd (omega arith)
]
  where
    one_more :
        ltb (occurs v out) (occurs v ids) ≡ true
        → (w : Text) → (text_eq v w ≡ true) ⊎ (text_eq v w ≡ false)
        → occurs w (v ∷ out) ≤ occurs w ids
    one_more q w (inr k) = ground (arith, s.once w)
    one_more q w (inl k) =
        let same : v ≡ w = text_eq→eq v w k in
        let ins : occurs v ids ≡ occurs w ids = ap (λ u. occurs u ids) same in
        let outs : occurs v out ≡ occurs w out = ap (λ u. occurs u out) same in
        ground (arith, ins, outs)

-- Where LayerOrder gives an order, every enabled plugin stands in it, once, and nothing else does,
-- and after every other enabled plugin that its manifest requires, and the owner of every name that
-- it overrides.
pub layer_order-Fine :
    (enabled : List Plugin) (saved out : List Text) (moved : List Move)
    → layer_order enabled saved ≡ ordered out moved
    → Fine enabled out
unfolding layer_order
layer_order-Fine enabled saved out moved h =
    let ids = nodes enabled in
    let edges = edges_of enabled in
    let (same, full) = finish_ordered ids saved edges (end_of enabled saved) out moved h in
    let s : Sound ids edges [] (end_of enabled saved).1 out =
      let at_end = end-Sound enabled saved in rw same at at_end in
    let lengths : length out ≡ length ids = rw same at full in
    record {
      same_ids = λ v. ground (
        arith,
        holds-occurs v out,
        holds-occurs v ids,
        holds-nodes enabled v,
        all_out ids edges _ out v s lengths,
        s.once v,
      );
      once = λ v. omega (arith, s.once v, nodes_once enabled v);
      wanted = λ a b w apart there xs ys e.
          missing_edge edges xs a b
            (edges_of_all enabled a b w apart (holds-nodes enabled b ∙ there))
            (Layered-at edges [] out xs a ys e s.layered);
    }

missing_wanted :
    (ids : List Text) (enabled : List Plugin) (edges : List Edge) (out : List Text) (v : Text)
    → All (Within ids enabled) edges
    → 0 < missing edges out v
    → (u : Text) × (holds u ids ≡ true)
      × (text_eq v u ≡ false)
      × Wants enabled v u
      × (occurs u out ≡ 0)
missing_wanted ids enabled [] out v k h = absurd (omega arith)
missing_wanted ids enabled (e ∷ edges) out v k h =
    elim (Bool-cases (text_eq e.dependent v && occurs e.dependency out == 0)) [
      | inl q ↦
          let same : e.dependent ≡ v = text_eq→eq e.dependent v (ground arith) in
          let (a, b, c, d) = k.0 in (e.dependency, b, rw same at c, rw same at d, ground arith)
      | inr q ↦ missing_wanted ids enabled edges out v k.1 (ground arith)
    ]

-- Nothing that comes first in a fine order can be stuck.
head_free :
    (enabled : List Plugin) (degrees : Degrees) (out order seen : List Text) (w : Text)
    (vs : List Text)
    → Sound (nodes enabled) (edges_of enabled) [] degrees out
    → Fine enabled order
    → order ≡ seen ++ w ∷ vs
    → ((v : Text) → holds v seen ≡ true → missing (edges_of enabled) out v ≡ 0)
    → missing (edges_of enabled) out w ≡ 0
head_free enabled degrees out order seen w vs s f e h =
    elim (Bool-cases (ltb 0 (missing (edges_of enabled) out w))) [
      | inr q ↦ ground arith
      | inl q ↦
          let (u, there, apart, want, absent) =
            missing_wanted (nodes enabled) enabled (edges_of enabled) out w
              (edges_of-Within enabled) (ground arith) in
          let earlier : holds u seen ≡ true =
            f.wanted w u want apart (sym (holds-nodes enabled u) ∙ there) seen vs e in
          let present : 0 < occurs u (nodes enabled) =
            ground (arith, there, holds-occurs u (nodes enabled)) in
          let came = s.all_free u present (h u earlier) in absurd (omega arith)
    ]

none_stuck :
    (enabled : List Plugin) (degrees : Degrees) (out order vs seen : List Text)
    → Sound (nodes enabled) (edges_of enabled) [] degrees out
    → Fine enabled order
    → order ≡ seen ++ vs
    → ((v : Text) → holds v seen ≡ true → missing (edges_of enabled) out v ≡ 0)
    → (v : Text) → holds v order ≡ true
    → missing (edges_of enabled) out v ≡ 0
none_stuck enabled degrees out order [] seen s f e h v k = h v (rw (e ∙ append_nil seen) at k)
none_stuck enabled degrees out order (w ∷ vs) seen s f e h v k =
    none_stuck enabled degrees out order vs (seen ++ w ∷ []) s f (e ∙ sym (append_assoc seen w vs))
      (λ u q. grown u q (Bool-cases (text_eq w u))) v k
  where
    grown :
        (u : Text)
        → holds u (seen ++ w ∷ []) ≡ true
        → (text_eq w u ≡ true) ⊎ (text_eq w u ≡ false)
        → missing (edges_of enabled) out u ≡ 0
    grown u q (inl t) =
        rw (text_eq→eq w u t) at (head_free enabled degrees out order seen w vs s f e h)
    grown u q (inr t) = h u (ground (arith, any-append (λ x. text_eq x u) seen (w ∷ [])))

finish_cycle :
    (ids saved : List Text) (edges : List Edge) (end : List Text × Degrees) (stuck : List Text)
    → finish ids saved edges end ≡ cycle stuck
    → (length end.0 == length ids) ≡ false
finish_cycle ids saved edges (o, degrees) stuck h = elim (Bool-cases (length o == length ids)) [
  | inl e ↦ cc (rw e at h)
  | inr e ↦ e
]

-- Where LayerOrder reports a loop, there is one: no order of the enabled plugins, each once, puts
-- every one of them after all that its manifest wants before it.
pub cycle_has_no_order :
    (enabled : List Plugin) (saved stuck order : List Text)
    → layer_order enabled saved ≡ cycle stuck
    → ¬ (Fine enabled order)
unfolding layer_order
cycle_has_no_order enabled saved stuck order h f =
    let ids = nodes enabled in
    let s = end-Sound enabled saved in
    let out = (end_of enabled saved).0 in
    let short = finish_cycle ids saved (edges_of enabled) (end_of enabled saved) stuck h in
    let free =
      none_stuck enabled (end_of enabled saved).1 out order order [] s f refl (λ v k. cc) in
    let below : length out ≤ length ids = length_of_occurs out ids (λ v. omega (arith, s.once v)) in
    let above : length ids ≤ length out = length_of_occurs ids out (λ v. ground (
      arith,
      s.all_free v,
      free v,
      f.same_ids v,
      holds-nodes enabled v,
      holds-occurs v ids,
      nodes_once enabled v,
    )) in
    ground arith
