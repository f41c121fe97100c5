-- ===== src/Plugin/Edges.antt =====
-- Which edges LayerOrder adds: just those that the manifests ask for, between enabled plugins.
use cogitorium.Prelude.{
  ◌≡◌, refl, ◌∙◌, true, false, not, ◌||◌, ◌⊎◌, inl, inr, Option, none, some, List, [], ◌∷◌, Text,
  codes, text_eq, text_eq_refl, cut, any, any-append, Memᴰ, All, All-append, Bool-cases, arith,
}
use cogitorium.Plugin.Degrees.{text_eq_sym}
use cogitorium.Plugin.Order.{
  Plugin, Why, required, overrides_name, Edge, holds, is_edge, add_edge, add_requires, add_override,
  add_overrides, add_edges, nodes, edges_of,
}

-- What the manifest of an enabled plugin `a`, that is not broken, says must be layered before it: a
-- plugin that it requires, or the owner of a name that it overrides, unless that is the host.
abbrev pub Wants : List Plugin → Text → Text → Type 0
Wants enabled a b =
    (p : Plugin) × Memᴰ p enabled
    × (p.id ≡ a)
    × (p.broken ≡ false)
    × (Memᴰ b p.requires
        ⊎ ((name rest : Text) × Memᴰ name p.overrides
            × (cut name b'.' ≡ some (b, rest))
            × (text_eq b (codes "cog") ≡ false)))

abbrev Keeps : Text → Text → List Edge → List Edge → Type 0
Keeps a b edges edges' = any (is_edge a b) edges ≡ true → any (is_edge a b) edges' ≡ true

module _ (ids : List Text) (a b : Text) where
  add_edge-Keeps :
      (u v : Text) (why : Why) (edges : List Edge) → Keeps a b edges (add_edge ids u v why edges)
  unfolding add_edge
  add_edge-Keeps u v why edges h =
      let more =
        any-append (is_edge a b) edges (record { dependent = u; dependency = v; why = why } ∷ []) in
      ground (arith, more)

  add_override-Keeps :
      (id name : Text) (o : Option (Text × Text)) (edges : List Edge)
      → Keeps a b edges (add_override ids id name o edges)
  add_override-Keeps id name none edges h = h
  add_override-Keeps id name (some (n, rest)) edges h =
      elim (Bool-cases (text_eq n id || text_eq n (codes "cog"))) [
        | inl e ↦ rw e h
        | inr e ↦ rw e (add_edge-Keeps id n (overrides_name name) edges h)
      ]

  add_requires-Keeps :
      (id : Text) (deps : List Text) (edges : List Edge)
      → Keeps a b edges (add_requires ids id deps edges)
  unfolding add_requires
  add_requires-Keeps id [] edges h = h
  add_requires-Keeps id (d ∷ deps) edges h =
      add_requires-Keeps id deps (add_edge ids id d required edges)
        (add_edge-Keeps id d required edges h)

  add_overrides-Keeps :
      (id : Text) (names : List Text) (edges : List Edge)
      → Keeps a b edges (add_overrides ids id names edges)
  unfolding add_overrides
  add_overrides-Keeps id [] edges h = h
  add_overrides-Keeps id (n ∷ names) edges h =
      add_overrides-Keeps id names (add_override ids id n (cut n b'.') edges)
        (add_override-Keeps id n (cut n b'.') edges h)

  add_edges-Keeps :
      (ps : List Plugin) (edges : List Edge) → Keeps a b edges (add_edges ids ps edges)
  unfolding add_edges
  add_edges-Keeps [] edges h = h
  add_edges-Keeps (p ∷ ps) edges h = add_edges-Keeps ps _ (elim (Bool-cases p.broken) [
    | inl e ↦ rw e h
    | inr e ↦
        rw e (add_overrides-Keeps p.id p.overrides _ (add_requires-Keeps p.id p.requires edges h))
  ])

  module _ (apart : text_eq a b ≡ false) (there : holds b ids ≡ true) where
    add_edge_adds :
        (why : Why) (edges : List Edge) → any (is_edge a b) (add_edge ids a b why edges) ≡ true
    unfolding add_edge
    add_edge_adds why edges =
        let more =
          any-append (is_edge a b) edges
            (record { dependent = a; dependency = b; why = why } ∷ []) in
        ground (arith, more, text_eq_refl a, text_eq_refl b, apart, there)

    add_requires_adds :
        (deps : List Text) (edges : List Edge)
        → Memᴰ b deps
        → any (is_edge a b) (add_requires ids a deps edges) ≡ true
    unfolding add_requires
    add_requires_adds [] edges m = elim m [ ]
    add_requires_adds (d ∷ deps) edges (Memᴰ.head e) =
        add_requires-Keeps a deps (add_edge ids a d required edges)
          (rw (← e) (add_edge_adds required edges))
    add_requires_adds (d ∷ deps) edges (Memᴰ.tail m) =
        add_requires_adds deps (add_edge ids a d required edges) m

    add_overrides_adds :
        (name rest : Text) (names : List Text) (edges : List Edge)
        → cut name b'.' ≡ some (b, rest)
        → text_eq b (codes "cog") ≡ false
        → Memᴰ name names
        → any (is_edge a b) (add_overrides ids a names edges) ≡ true
    unfolding add_overrides
    add_overrides_adds name rest [] edges e other m = elim m [ ]
    add_overrides_adds name rest (n ∷ names) edges e other (Memᴰ.head q) =
        let here : cut n b'.' ≡ some (b, rest) = rw (← q) e in
        let apart' : text_eq b a ≡ false = text_eq_sym b a ∙ apart in
        add_overrides-Keeps a names (add_override ids a n (cut n b'.') edges)
          (rw here (ground (arith, apart', other, add_edge_adds (overrides_name n) edges)))
    add_overrides_adds name rest (n ∷ names) edges e other (Memᴰ.tail m) =
        add_overrides_adds name rest names (add_override ids a n (cut n b'.') edges) e other m

    add_edges_adds :
        (ps : List Plugin) (edges : List Edge)
        → Wants ps a b
        → any (is_edge a b) (add_edges ids ps edges) ≡ true
    unfolding add_edges
    add_edges_adds [] edges (p, m, same, sane, w) = elim m [ ]
    add_edges_adds (q ∷ ps) edges (p, Memᴰ.tail m, same, sane, w) =
        add_edges_adds ps _ (p, m, same, sane, w)
    add_edges_adds (q ∷ ps) edges (p, Memᴰ.head e, same, sane, w) =
        add_edges-Keeps ps _ (rw (← e) (rw (same, sane) (added w)))
      where
        added :
            (Memᴰ b p.requires)
              ⊎ ((name rest : Text) × Memᴰ name p.overrides
                  × (cut name b'.' ≡ some (b, rest))
                  × (text_eq b (codes "cog") ≡ false))
            → any
                (is_edge a b)
                (add_overrides ids a p.overrides (add_requires ids a p.requires edges))
              ≡ true
        added (inl m) = add_overrides-Keeps a p.overrides _ (add_requires_adds p.requires edges m)
        added (inr (name, rest, m, c, other)) = add_overrides_adds name rest p.overrides _ c other m

-- Every edge runs between two of the ids, that differ, and the manifests ask for it.
abbrev pub Within : List Text → List Plugin → Edge → Type 0
Within ids enabled e =
    (holds e.dependent ids ≡ true)
    × (holds e.dependency ids ≡ true)
    × (text_eq e.dependent e.dependency ≡ false)
    × Wants enabled e.dependent e.dependency

module _ (ids : List Text) (enabled : List Plugin) (p : Plugin) (here : holds p.id ids ≡ true)
    (m : Memᴰ p enabled) (sane : p.broken ≡ false) where
  add_edge-Within :
      (v : Text) (why : Why) (edges : List Edge)
      → Wants enabled p.id v
      → All (Within ids enabled) edges
      → All (Within ids enabled) (add_edge ids p.id v why edges)
  unfolding add_edge
  add_edge-Within v why edges w k =
      elim (Bool-cases (text_eq p.id v || not (holds v ids) || any (is_edge p.id v) edges)) [
        | inl e ↦ rw e k
        | inr e ↦
            rw e (
              All-append (Within ids enabled) edges _ k ((here, ground arith, ground arith, w), tt))
      ]

  add_override-Within :
      (name : Text) (o : Option (Text × Text)) (edges : List Edge)
      → cut name b'.' ≡ o
      → Memᴰ name p.overrides
      → All (Within ids enabled) edges
      → All (Within ids enabled) (add_override ids p.id name o edges)
  add_override-Within name none edges c n k = k
  add_override-Within name (some (v, rest)) edges c n k =
      elim (Bool-cases (text_eq v p.id || text_eq v (codes "cog"))) [
        | inl e ↦ rw e k
        | inr e ↦
            let other : text_eq v (codes "cog") ≡ false = ground arith in
            rw e (
              add_edge-Within v (overrides_name name) edges
                (p, m, refl, sane, inr (name, rest, n, c, other)) k)
      ]

  add_requires-Within :
      (deps : List Text) (edges : List Edge)
      → ((d : Text) → Memᴰ d deps → Memᴰ d p.requires)
      → All (Within ids enabled) edges
      → All (Within ids enabled) (add_requires ids p.id deps edges)
  unfolding add_requires
  add_requires-Within [] edges n k = k
  add_requires-Within (d ∷ deps) edges n k =
      add_requires-Within deps (add_edge ids p.id d required edges) (λ c l. n c (Memᴰ.tail l))
        (add_edge-Within d required edges (p, m, refl, sane, inl (n d (Memᴰ.head refl))) k)

  add_overrides-Within :
      (names : List Text) (edges : List Edge)
      → ((c : Text) → Memᴰ c names → Memᴰ c p.overrides)
      → All (Within ids enabled) edges
      → All (Within ids enabled) (add_overrides ids p.id names edges)
  unfolding add_overrides
  add_overrides-Within [] edges n k = k
  add_overrides-Within (c ∷ names) edges n k =
      add_overrides-Within names (add_override ids p.id c (cut c b'.') edges)
        (λ d l. n d (Memᴰ.tail l))
        (add_override-Within c (cut c b'.') edges refl (n c (Memᴰ.head refl)) k)

pub add_edges-Within :
    (ids : List Text) (enabled ps : List Plugin) (edges : List Edge)
    → All (λ p. holds p.id ids ≡ true) ps
    → ((p : Plugin) → Memᴰ p ps → Memᴰ p enabled)
    → All (Within ids enabled) edges
    → All (Within ids enabled) (add_edges ids ps edges)
unfolding add_edges
add_edges-Within ids enabled [] edges h n k = k
add_edges-Within ids enabled (p ∷ ps) edges h n k =
    add_edges-Within ids enabled ps _ h.1 (λ q l. n q (Memᴰ.tail l))
      (elim (Bool-cases p.broken) [
        | inl e ↦ rw e k
        | inr e ↦
            let m = n p (Memᴰ.head refl) in
            rw e (
              add_overrides-Within ids enabled p h.0 m e p.overrides _ (λ c l. l)
                (add_requires-Within ids enabled p h.0 m e p.requires edges (λ c l. l) k))
      ])

-- An edge is there for all that a manifest wants, of another plugin that is enabled.
pub edges_of_all :
    (enabled : List Plugin) (a b : Text)
    → Wants enabled a b
    → text_eq a b ≡ false
    → holds b (nodes enabled) ≡ true
    → any (is_edge a b) (edges_of enabled) ≡ true
unfolding edges_of
edges_of_all enabled a b w apart there = add_edges_adds (nodes enabled) a b apart there enabled [] w
