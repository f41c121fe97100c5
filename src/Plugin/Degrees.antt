-- ===== src/Plugin/Degrees.antt =====
-- Counting in Kahn's algorithm: how often an id occurs, and how many of its dependencies are missing.
use cogitorium.Prelude.{
  ℕ, ◌+◌, ◌≤◌, ◌≡◌, refl, ap, true, false, ◌&&◌, List, [], ◌∷◌, ◌++◌, ◌==◌, ltb, if◌then◌else◌,
  Text, text_eq, text_eq→eq, text_eq_refl, count, count-append, arith, Bool-cases, inl, inr,
}
use cogitorium.Plugin.Order.{Edge, after, indegree, Degrees, lower, free}

-- how often an id occurs
abbrev pub occurs : Text → List Text → ℕ
occurs v xs = count (λ x. text_eq x v) xs

-- how many edges to `v` begin at an id that is not in `out`
abbrev pub missing : List Edge → List Text → Text → ℕ
missing edges out v = count (λ e. text_eq e.dependent v && occurs e.dependency out == 0) edges

text_neq_sym : (a b : Text) → text_eq a b ≡ false → text_eq a b ≡ text_eq b a
text_neq_sym a b e = elim (Bool-cases (text_eq b a)) [
  | inl k ↦
      let q : b ≡ a = text_eq→eq b a k in
      let self : text_eq a b ≡ true = rw q (text_eq_refl a) in ground arith
  | inr k ↦ ground arith
]

pub text_eq_sym : (a b : Text) → text_eq a b ≡ text_eq b a
text_eq_sym a b = elim (Bool-cases (text_eq a b)) [
  | inl e ↦
      let q : a ≡ b = text_eq→eq a b e in
      let self : text_eq b a ≡ true = rw q (text_eq_refl b) in ground arith
  | inr e ↦ text_neq_sym a b e
]

-- Once more `id`, which was not out: its edges are no longer missing.
pub missing-after :
    (edges : List Edge) (out : List Text) (id v : Text)
    → occurs id out ≡ 0
    → missing edges (out ++ id ∷ []) v + occurs v (after edges id) ≡ missing edges out v
unfolding after
missing-after [] out id v h = refl
missing-after (e ∷ edges) out id v h =
    let more : occurs e.dependency (out ++ id ∷ [])
        ≡ occurs e.dependency out + occurs e.dependency (id ∷ []) =
      count-append (λ x. text_eq x e.dependency) out (id ∷ []) in
    let rest = missing-after edges out id v h in
    let turn = text_eq_sym id e.dependency in
    elim (Bool-cases (text_eq e.dependency id)) [
      | inl q ↦
          let first : occurs e.dependency out ≡ 0 = rw (text_eq→eq e.dependency id q) h in
          ground (arith, more, rest, turn)
      | inr q ↦ ground (arith, more, rest, turn)
    ]

-- At first everything is missing.
pub missing-nil : (edges : List Edge) (v : Text) → missing edges [] v ≡ indegree edges v
unfolding indegree
missing-nil [] v = refl
missing-nil (e ∷ edges) v = ground (arith, missing-nil edges v)

pub missing_le :
    (edges : List Edge) (out : List Text) (v : Text) → missing edges out v ≤ indegree edges v
unfolding indegree
missing_le [] out v = omega arith
missing_le (e ∷ edges) out v = ground (arith, missing_le edges out v)

abbrev pub freed_count : ℕ → ℕ → ℕ
freed_count degree found = if ltb 0 degree && degree == found then 1 else 0

-- The loop over the dependents lowers a degree by each occurrence, and frees just those ids once
-- that come to nothing.
pub free_lem :
    (ds : List Text) (degrees : Degrees) (v : Text)
    → ((w : Text) → occurs w ds ≤ degrees w)
    → ((free ds degrees).0 v + occurs v ds ≡ degrees v)
      × (occurs v (free ds degrees).1 ≡ freed_count (degrees v) (occurs v ds))
unfolding free
free_lem [] degrees v h = (omega arith, ground arith)
free_lem (d ∷ ds) degrees v h =
    let below : (w : Text) → occurs w ds ≤ lower d degrees w = (λ w. ground (arith, h w)) in
    let self = text_eq_refl d in
    let here = h v in
    let (a, b) = free_lem ds (lower d degrees) v below in
    elim (Bool-cases (text_eq d v)) [
      | inl e ↦
          let same : degrees d ≡ degrees v = ap degrees (text_eq→eq d v e) in
          (ground (arith, a, here), ground (arith, b, same, self, here))
      | inr e ↦ (ground (arith, a, here), ground (arith, b, self, here))
    ]
