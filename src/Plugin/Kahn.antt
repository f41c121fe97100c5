-- ===== src/Plugin/Kahn.antt =====
-- The loop of LayerOrder: what is out has every dependency before it, and a round for each id is enough.
use cogitorium.Prelude.{
  count-sort_by, ℕ, zero, suc, ◌+◌, ◌≤◌, ◌<◌, ◌≡◌, refl, ap, ◌∙◌, List, [], ◌∷◌, ◌++◌,
  if◌then◌else◌, Text, text_eq, text_eq→eq, text_eq_refl, length, count-append, length-append,
  arith, Bool-cases, inl, inr,
}
use cogitorium.Plugin.Order.{Edge, after, indegree, Degrees, free, kahn, sort_by_rank, ranks_before}
use cogitorium.Plugin.Degrees.{occurs, missing, missing-after, missing_le, free_lem, freed_count}

-- Nothing that `ids` depend on is missing when its turn comes, if `seen` is out already.
abbrev pub Layered : List Edge → List Text → List Text → Type 0
Layered edges seen [] = Unit
Layered edges seen (v ∷ vs) = (missing edges seen v ≡ 0) × Layered edges (seen ++ v ∷ []) vs

remove : Text → List Text → List Text
remove v [] = []
remove v (x ∷ xs) = let rest = remove v xs in if text_eq x v then xs else x ∷ rest

length-remove :
    (v : Text) (xs : List Text) → 0 < occurs v xs → suc (length (remove v xs)) ≡ length xs
unfolding remove
length-remove v [] h = absurd (omega arith)
length-remove v (x ∷ xs) h = elim (Bool-cases (text_eq x v)) [
  | inl e ↦ ground arith
  | inr e ↦ let rest = length-remove v xs (ground arith) in ground (arith, rest)
]

occurs-remove :
    (v w : Text) (xs : List Text)
    → 0 < occurs v xs
    → occurs w (remove v xs) + occurs w (v ∷ []) ≡ occurs w xs
unfolding remove
occurs-remove v w [] h = absurd (omega arith)
occurs-remove v w (x ∷ xs) h = elim (Bool-cases (text_eq x v)) [
  | inl e ↦
      let same : x ≡ v = text_eq→eq x v e in
      let t : text_eq x w ≡ text_eq v w = ap (λ y. text_eq y w) same in ground (arith, t)
  | inr e ↦ let rest = occurs-remove v w xs (ground arith) in ground (arith, rest)
]

-- A list in which no id occurs more often is no longer.
pub length_of_occurs :
    (xs ys : List Text) → ((v : Text) → occurs v xs ≤ occurs v ys) → length xs ≤ length ys
length_of_occurs [] ys h = omega arith
length_of_occurs (x ∷ xs) ys h =
    let self = text_eq_refl x in
    let there : 0 < occurs x ys = ground (arith, h x) in
    let rest =
      length_of_occurs xs (remove x ys) (λ v. ground (arith, h v, occurs-remove x v ys there)) in
    omega (arith, length-remove x ys there)

pub append_nil : (xs : List Text) → xs ++ [] ≡ xs
append_nil [] = refl
append_nil (x ∷ xs) = ap (λ ys. x ∷ ys) (append_nil xs)

pub append_assoc :
    (xs : List Text) (y : Text) (zs : List Text) → (xs ++ y ∷ []) ++ zs ≡ xs ++ y ∷ zs
append_assoc [] y zs = refl
append_assoc (x ∷ xs) y zs = ap (λ ys. x ∷ ys) (append_assoc xs y zs)

Layered-append_one :
    (edges : List Edge) (seen vs : List Text) (v : Text)
    → Layered edges seen vs
    → missing edges (seen ++ vs) v ≡ 0
    → Layered edges seen (vs ++ v ∷ [])
Layered-append_one edges seen [] v h k = (rw append_nil at k, tt)
Layered-append_one edges seen (w ∷ vs) v h k =
    (h.0, Layered-append_one edges (seen ++ w ∷ []) vs v h.1 (rw (append_assoc seen w vs) k))

pub record Sound (ids : List Text) (edges : List Edge) (ready : List Text) (degrees : Degrees)
    (out : List Text) : Type 0 where
  pub counted : (v : Text) → degrees v ≡ missing edges out v
  pub once : (v : Text) → occurs v out + occurs v ready ≤ occurs v ids
  pub complete : (v : Text) → 0 < occurs v out + occurs v ready → missing edges out v ≡ 0
  pub all_free :
      (v : Text) → 0 < occurs v ids → missing edges out v ≡ 0 → 0 < occurs v out + occurs v ready
  pub layered : Layered edges [] out

-- One round of the loop keeps all that.
pub round-Sound :
    (ids saved : List Text) (edges : List Edge) (id : Text) (ready : List Text) (degrees : Degrees)
    (out : List Text)
    → ((v : Text) → occurs v ids ≤ 1)
    → ((v : Text) → 0 < indegree edges v → 0 < occurs v ids)
    → Sound ids edges (id ∷ ready) degrees out
    → let freed = free (after edges id) degrees in
      Sound ids edges (sort_by_rank saved (ready ++ freed.1)) freed.0 (out ++ id ∷ [])
round-Sound ids saved edges id ready degrees out single known s =
    let freed = free (after edges id) degrees in
    let self = text_eq_refl id in
    let fresh : occurs id out ≡ 0 = ground (arith, s.once id, single id) in
    let fewer : (v : Text)
        → missing edges (out ++ id ∷ []) v + occurs v (after edges id) ≡ missing edges out v =
      (λ v. missing-after edges out id v fresh) in
    let enough : (w : Text) → occurs w (after edges id) ≤ degrees w =
      (λ w. ground (arith, s.counted w, fewer w)) in
    let lowered : (v : Text)
        → (freed.0 v + occurs v (after edges id) ≡ degrees v)
          × (occurs v freed.1 ≡ freed_count (degrees v) (occurs v (after edges id))) =
      (λ v. free_lem (after edges id) degrees v enough) in
    let out_count : (v : Text) → occurs v (out ++ id ∷ []) ≡ occurs v out + occurs v (id ∷ []) =
      (λ v. count-append (λ x. text_eq x v) out (id ∷ [])) in
    let ready_count : (v : Text)
        → occurs v (sort_by_rank saved (ready ++ freed.1)) ≡ occurs v ready + occurs v freed.1 =
      (λ v.
        count-sort_by (λ x. text_eq x v) (ranks_before saved) (ready ++ freed.1)
        ∙ count-append (λ x. text_eq x v) ready freed.1) in
    record {
      counted = λ v. omega (arith, s.counted v, fewer v, (lowered v).0);
      once = λ v. ground (
        arith,
        s.once v,
        s.complete v,
        s.all_free v,
        s.counted v,
        fewer v,
        lowered v,
        out_count v,
        ready_count v,
        single v,
        known v,
        missing_le edges out v,
      );
      complete = λ v h.
          ground (arith, s.complete v, s.counted v, fewer v, lowered v, out_count v, ready_count v);
      all_free = λ v h k.
          ground (arith, s.all_free v, s.counted v, fewer v, lowered v, out_count v, ready_count v);
      layered = Layered-append_one edges [] out id s.layered (s.complete id (ground (arith, self)));
    }

pub kahn-Sound :
    (fuel : ℕ) (ids saved : List Text) (edges : List Edge) (ready : List Text) (degrees : Degrees)
    (out : List Text)
    → ((v : Text) → occurs v ids ≤ 1)
    → ((v : Text) → 0 < indegree edges v → 0 < occurs v ids)
    → length out + fuel ≡ length ids
    → Sound ids edges ready degrees out
    → let end = kahn fuel edges saved ready degrees out in Sound ids edges [] end.1 end.0
unfolding kahn
kahn-Sound zero ids saved edges [] degrees out single known enough s = s
kahn-Sound zero ids saved edges (id ∷ ready) degrees out single known enough s =
    let short =
      length_of_occurs (out ++ id ∷ ready) ids
        (λ v. omega (arith, s.once v, count-append (λ x. text_eq x v) out (id ∷ ready))) in
    absurd (omega (arith, short, length-append out (id ∷ ready)))
kahn-Sound (suc fuel) ids saved edges [] degrees out single known enough s = s
kahn-Sound (suc fuel) ids saved edges (id ∷ ready) degrees out single known enough s =
    let freed = free (after edges id) degrees in
    let grown = length-append out (id ∷ []) in
    kahn-Sound fuel ids saved edges (sort_by_rank saved (ready ++ freed.1)) freed.0 (out ++ id ∷ [])
      single known (omega (arith, grown))
      (round-Sound ids saved edges id ready degrees out single known s)
