-- ===== src/Planboard/Rows.antt =====
-- internal/planboard/planboard.go: the types, and the tables of store/migrations/0038_planboards.sql
-- that the package reads and writes. A time is the text of its column, a parameter of each call.
use mathlib.Core.List.{foldr}
use Prim.Native.Nat.{max}
use cogitorium.Prelude.{
  ℕ, suc, Bool, false, ◌&&◌, ◌||◌, Option, none, some, List, [], ◌∷◌, ◌==◌, ltb, leb, if◌then◌else◌,
  Text, codes, text_eq, is_empty, count, find?, all, length, sort_by,
}

pub data Mode : Type 0 where
  resume restart : Mode

pub data Err : Type 0 where
  invalid_name invalid_mode empty not_found out_of_range storage : Err

pub data Result {ℓ} (A : Type ℓ) : Type ℓ where
  ok : A → Result A
  err : Err → Result A

-- a row of `planboards`
pub record Plan : Type 0 where
  pub id : ℕ
  pub name : Text
  pub description : Text
  pub tags : List Text
  pub mode : Mode
  pub origin_workspace_id : Option ℕ
  pub created_by_agent_id : Option ℕ
  pub updated_at : Text

-- `type Step`
pub record Step : Type 0 where
  pub ordinal : ℕ
  pub title : Text
  pub body : Text

-- a row of `planboard_steps`
pub record StepRow : Type 0 where
  pub planboard_id : ℕ
  pub step : Step

-- a row of `planboard_bindings`
pub record Binding : Type 0 where
  pub id : ℕ
  pub planboard_id : ℕ
  pub workspace_id : ℕ
  pub agent_id : Option ℕ

-- a row of `planboard_state`
pub record StateRow : Type 0 where
  pub binding_id : ℕ
  pub step : ℕ
  pub cycle : ℕ
  pub blocked_note : Text
  pub updated_at : Text

pub record Db : Type 0 where
  pub plans : List Plan
  pub steps : List StepRow
  pub bindings : List Binding
  pub states : List StateRow

-- `type Planboard`: a plan with its steps
pub record Planboard : Type 0 where
  pub plan : Plan
  pub steps : List Step

-- `func (m Mode) valid`, and what an empty mode stands for; any other text is no mode
unfoldable pub mode_of : Text → Option Mode
mode_of m =
    if is_empty m || text_eq m (codes "resume")
    then some resume
    else if text_eq m (codes "restart")
    then some restart
    else none

is_lower : ℕ → Bool
is_lower c = leb b'a' c && leb c b'z'

is_name_rune : ℕ → Bool
unfolding is_lower
is_name_rune c = is_lower c || (leb b'0' c && leb c b'9') || c == b'_' || c == b'-'

-- `nameRe`, ^[a-z][a-z0-9_-]{1,60}$
unfoldable pub valid_name : Text → Bool
unfolding is_name_rune
valid_name [] = false
valid_name (c ∷ s) = is_lower c && all is_name_rune s && leb 1 (length s) && leb (length s) 60

abbrev pub has_plan_id : ℕ → Plan → Bool
has_plan_id id p = p.id == id

abbrev pub of_plan : ℕ → StepRow → Bool
of_plan id s = s.planboard_id == id

abbrev pub has_binding_id : ℕ → Binding → Bool
has_binding_id id b = b.id == id

abbrev pub of_binding : ℕ → StateRow → Bool
of_binding id s = s.binding_id == id

-- the plan that a binding attaches
unfoldable pub plan_of : Db → ℕ → Option ℕ
plan_of db binding_id = elim (find? (has_binding_id binding_id) db.bindings) [
  | none ↦ none
  | some b ↦ some b.planboard_id
]

-- SELECT COUNT(*) FROM planboard_steps WHERE planboard_id = (SELECT planboard_id ... WHERE id = ?)
unfoldable pub step_count : Db → ℕ → ℕ
unfolding plan_of
step_count db binding_id = elim (plan_of db binding_id) [
  | none ↦ 0
  | some id ↦ count (of_plan id) db.steps
]

unfoldable pub next_plan_id : Db → ℕ
next_plan_id db = suc (foldr (λ p m. max p.id m) 0 db.plans)

unfoldable pub next_binding_id : Db → ℕ
next_binding_id db = suc (foldr (λ b m. max b.id m) 0 db.bindings)

abbrev pub steps_of : ℕ → List StepRow → List Step
steps_of id [] = []
steps_of id (s ∷ rest) = let more = steps_of id rest in if of_plan id s then s.step ∷ more else more

-- `steps`: ORDER BY ordinal
unfoldable pub steps : Db → ℕ → List Step
steps db id = sort_by (λ a b. ltb a.ordinal b.ordinal) (steps_of id db.steps)

abbrev with_steps : Db → Option Plan → Result Planboard
with_steps db none = err not_found
with_steps db (some p) = ok (record { plan = p; steps = steps db p.id })

-- Get
unfoldable pub get : Db → ℕ → Result Planboard
unfolding steps
get db id = with_steps db (find? (has_plan_id id) db.plans)

-- GetByName
unfoldable pub get_by_name : Db → Text → Result Planboard
unfolding steps
get_by_name db name = with_steps db (find? (λ p. text_eq p.name name) db.plans)
