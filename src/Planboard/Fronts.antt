-- ===== src/Planboard/Fronts.antt =====
-- What Active (internal/planboard/position.go) reads of every binding, and hands out.
use cogitorium.Prelude.{
  ℕ, ◌≡◌, refl, sym, ap, ◌∙◌, Bool, true, ◌==◌, Option, none, some, List, [], ◌∷◌, ◌++◌, Text, any,
  find?, All, Option-cases, Bool-cases, inl, inr, arith, ==_iff,
}
use cogitorium.Planboard.Rows.{
  Result, ok, err, Binding, StateRow, Db, Planboard, has_binding_id, of_binding, steps, get,
}
use cogitorium.Planboard.Position.{state, first_state, step_at}
use cogitorium.Planboard.Active.{Assignment, assign, active_plan, active_read, active_loop}

-- the row of a binding: the stored one, or step one of the first cycle
abbrev pub row_or : ℕ → Text → Option StateRow → StateRow
row_or id now none = first_state id now
row_or id now (some s) = s

abbrev pub row_of : Db → ℕ → Text → StateRow
row_of db id now = row_or id now (find? (of_binding id) db.states)

abbrev or_last : (StateRow → Bool) → StateRow → Option StateRow → Option StateRow
or_last p x (some y) = some y
or_last p x none = find? p (x ∷ [])

find-append_last :
    (p : StateRow → Bool) (xs : List StateRow) (x : StateRow)
    → find? p (xs ++ (x ∷ [])) ≡ or_last p x (find? p xs)
find-append_last p [] x = refl
find-append_last p (y ∷ xs) x = elim (Bool-cases (p y)) [
  | inl e ↦ rw e refl
  | inr e ↦ rw e (find-append_last p xs x)
]

first_state-same : (id i : ℕ) (now : Text) → (id ≡ i) → first_state id now ≡ first_state i now
first_state-same id i now e = ap (λ n. first_state n now) e

last_is_first :
    (id i : ℕ) (now : Text)
    → row_or i now (find? (of_binding i) (first_state id now ∷ [])) ≡ first_state i now
last_is_first id i now = elim (Bool-cases (id == i)) [
  | inl k ↦ rw k (first_state-same id i now ((==_iff id i).0 k))
  | inr k ↦ rw k refl
]

row_of-first :
    (db : Db) (id i : ℕ) (now : Text)
    → find? (of_binding id) db.states ≡ none
    → row_of (record db { states = db.states ++ (first_state id now ∷ []) }) i now ≡ row_of db i now
row_of-first db id i now e =
    ap (row_or i now) (find-append_last (of_binding i) db.states (first_state id now))
    ∙ elim (Option-cases (find? (of_binding i) db.states)) [
      | inr (s, q) ↦ rw q refl
      | inl q ↦ rw q (last_is_first id i now)
    ]

state_stored :
    (db : Db) (id : ℕ) (now : Text) {s : StateRow}
    → find? (of_binding id) db.states ≡ some s
    → state db id now ≡ (db, ok s)
unfolding state
state_stored db id now e = ground arith

state_new :
    (db : Db) (id : ℕ) (now : Text)
    → find? (of_binding id) db.states ≡ none
    → any (has_binding_id id) db.bindings ≡ true
    → state db id now
      ≡ (record db { states = db.states ++ (first_state id now ∷ []) }, ok (first_state id now))
unfolding state
state_new db id now e h = ground arith

row_stored :
    (db : Db) (id : ℕ) (now : Text) {s : StateRow}
    → find? (of_binding id) db.states ≡ some s
    → row_of db id now ≡ s
row_stored db id now e = ap (row_or id now) e

row_new :
    (db : Db) (id : ℕ) (now : Text)
    → find? (of_binding id) db.states ≡ none
    → row_of db id now ≡ first_state id now
row_new db id now e = ap (row_or id now) e

-- A read gives the row, and leaves every row and every plan as it was read before.
pub record Read (db db' : Db) (id : ℕ) (now : Text) : Type 0 where
  pub given : state db id now ≡ (db', ok (row_of db id now))
  pub rows : (i : ℕ) → row_of db' i now ≡ row_of db i now
  pub plans : (i : ℕ) → get db' i ≡ get db i
  pub bindings : db'.bindings ≡ db.bindings

state-Read :
    (db : Db) (id : ℕ) (now : Text)
    → any (has_binding_id id) db.bindings ≡ true
    → (db' : Db) × Read db db' id now
unfolding get steps
state-Read db id now h = elim (Option-cases (find? (of_binding id) db.states)) [
  | inr (s, e) ↦ (
    db,
    record {
      given = state_stored db id now e ∙ ap (λ r. (db, ok r)) (sym (row_stored db id now e));
      rows = λ i. refl;
      plans = λ i. refl;
      bindings = refl;
    },
  )
  | inl e ↦ (
    record db { states = db.states ++ (first_state id now ∷ []) },
    record {
      given =
          state_new db id now e h
          ∙ ap (λ r. (record db { states = db.states ++ (first_state id now ∷ []) }, ok r))
              (sym (row_new db id now e));
      rows = λ i. row_of-first db id i now e;
      plans = λ i. refl;
      bindings = refl;
    },
  )
]

abbrev pub front_of : Db → Binding → Text → Result Planboard → List Assignment
front_of db b now (ok p) =
    assign p b (row_of db b.id now) (step_at p.steps (row_of db b.id now).step)
front_of db b now (err e) = []

-- what stands in front, binding by binding
abbrev pub fronts : Db → Text → List Binding → List Assignment
fronts db now [] = []
fronts db now (b ∷ bs) = front_of db b now (get db b.planboard_id) ++ fronts db now bs

fronts-same :
    (db db' : Db) (now : Text) (bs : List Binding)
    → ((i : ℕ) → row_of db' i now ≡ row_of db i now)
    → ((i : ℕ) → get db' i ≡ get db i)
    → fronts db' now bs ≡ fronts db now bs
fronts-same db db' now [] rows plans = refl
fronts-same db db' now (b ∷ bs) rows plans =
    ap (λ l. front_of db' b now (get db' b.planboard_id) ++ l)
      (fronts-same db db' now bs rows plans)
    ∙ ap (λ g. front_of db' b now g ++ fronts db now bs) (plans b.planboard_id)
    ∙ ap (λ l. l ++ fronts db now bs) (front_same (get db b.planboard_id))
  where
    front_same : (g : Result Planboard) → front_of db' b now g ≡ front_of db b now g
    front_same (err e) = refl
    front_same (ok p) = ap (λ r. assign p b r (step_at p.steps r.step)) (rows b.id)

append_nil : (xs : List Assignment) → xs ++ [] ≡ xs
append_nil [] = refl
append_nil (x ∷ xs) = ap (λ l. x ∷ l) (append_nil xs)

append_assoc : (xs ys zs : List Assignment) → (xs ++ ys) ++ zs ≡ xs ++ (ys ++ zs)
append_assoc [] ys zs = refl
append_assoc (x ∷ xs) ys zs = ap (λ l. x ∷ l) (append_assoc xs ys zs)

-- a binding that is there, of a plan that is there
abbrev pub Present : Db → Binding → Type 0
Present db b =
    (any (has_binding_id b.id) db.bindings ≡ true)
    × ((p : Planboard) × (get db b.planboard_id ≡ ok p))

All-map :
    {A : Type 0} (P Q : A → Type 0) (xs : List A) → ((x : A) → P x → Q x) → All P xs → All Q xs
All-map P Q [] f h = tt
All-map P Q (x ∷ xs) f h = (f x h.0, All-map P Q xs f h.1)

pub loop-fronts :
    (bs : List Binding) (now : Text) (db : Db) (out : List Assignment)
    → All (Present db) bs
    → (active_loop bs now db out).1 ≡ ok (out ++ fronts db now bs)
unfolding active_loop
loop-fronts [] now db out h = ap ok (sym (append_nil out))
loop-fronts (b ∷ rest) now db out h =
    let (p, e) = h.0.1 in
    let (db', r) = state-Read db b.id now h.0.0 in
    let now_in = assign p b (row_of db b.id now) (step_at p.steps (row_of db b.id now).step) in
    let later : All (Present db') rest =
      All-map (Present db) (Present db') rest
        (λ c k. (
          ap (any (has_binding_id c.id)) r.bindings ∙ k.0,
          (k.1.0, r.plans c.planboard_id ∙ k.1.1),
        ))
        h.1 in
    ap (λ g. (active_plan (λ d o. active_loop rest now d o) db now out b g).1) e
    ∙ ap (λ t. (active_read (λ d o. active_loop rest now d o) out p b t).1) r.given
    ∙ loop-fronts rest now db' (out ++ now_in) later
    ∙ ap ok (
        append_assoc out now_in (fronts db' now rest)
        ∙ ap (λ l. out ++ (now_in ++ l)) (fronts-same db db' now rest r.rows r.plans)
        ∙ ap (λ g. out ++ (front_of db b now g ++ fronts db now rest)) (sym e))
