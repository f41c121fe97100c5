-- ===== src/Planboard/Listing.antt =====
-- internal/planboard: List and Bindings, what the screens show.
use cogitorium.Prelude.{
  count-map, count-filter_and, count-sort_by, ℕ, ◌≡◌, ◌∙◌, refl, Bool, true, false, ◌&&◌, ◌||◌,
  Option, none, some, List, [], ◌∷◌, ◌==◌, Text, text_eq, text_ltb, is_empty, to_lower, cut_prefix,
  any, filter, map, sort_by, count, All,
}
use cogitorium.Planboard.Rows.{Plan, Binding, Db, Planboard, has_plan_id, steps}
use cogitorium.Planboard.Active.{plan_name}

abbrev is_some : Option Text → Bool
is_some none = false
is_some (some s) = true

-- strings.Contains
unfoldable pub contains : Text → Text → Bool
contains [] q = is_empty q
contains (c ∷ s) q = is_some (cut_prefix (c ∷ s) q) || contains s q

-- containsFold; strings.EqualFold compares in lower case
unfoldable pub contains_fold : List Text → Text → Bool
contains_fold haystack needle = any (λ h. text_eq (to_lower h) (to_lower needle)) haystack

-- whether the loop of List keeps a plan
unfoldable pub is_listed : Text → Text → Plan → Bool
unfolding contains contains_fold
is_listed tag query p =
    (is_empty tag || contains_fold p.tags tag)
    && (is_empty query
        || contains (to_lower p.name) (to_lower query)
        || contains (to_lower p.description) (to_lower query))

abbrev pub by_name : Plan → Plan → Bool
by_name a b = text_ltb a.name b.name

abbrev pub with_steps_of : Db → Plan → Planboard
with_steps_of db p = record { plan = p; steps = steps db p.id }

-- List
unfoldable pub list : Db → Text → Text → List Planboard
list db tag query = map (with_steps_of db) (filter (is_listed tag query) (sort_by by_name db.plans))

-- Bindings; the join leaves out a binding without its plan
unfoldable pub bindings : Db → ℕ → List Binding
bindings db workspace =
    sort_by (λ a b. text_ltb (plan_name db a) (plan_name db b))
      (filter (λ b. b.workspace_id == workspace && any (has_plan_id b.planboard_id) db.plans)
        db.bindings)

All-with_steps :
    (db : Db) (ps : List Plan) → All (λ b. b.steps ≡ steps db b.plan.id) (map (with_steps_of db) ps)
All-with_steps db [] = tt
All-with_steps db (p ∷ ps) = (refl, All-with_steps db ps)

-- List shows the plans that the tag and the query let through, each as often as the catalogue has
-- it, and each with the steps that its id has; and Bindings shows those attachments of a workspace
-- whose plan is there. What is shown is compared by the number of entries that pass a test, any
-- tests `p` and `q`.
pub listings_show :
    (db : Db) (tag query : Text) (workspace : ℕ) (p : Plan → Bool) (q : Binding → Bool)
    → (count (λ b. p b.plan) (list db tag query)
        ≡ count (λ r. is_listed tag query r && p r) db.plans)
      × All (λ b. b.steps ≡ steps db b.plan.id) (list db tag query)
      × (count q (bindings db workspace)
          ≡ count
              (λ b.
                (b.workspace_id == workspace && any (has_plan_id b.planboard_id) db.plans) && q b)
              db.bindings)
unfolding list bindings
listings_show db tag query workspace p q = (
  count-map (λ b. p b.plan) (with_steps_of db)
        (filter (is_listed tag query) (sort_by by_name db.plans))
      ∙ count-filter_and (is_listed tag query) p (sort_by by_name db.plans)
      ∙ count-sort_by (λ r. is_listed tag query r && p r) by_name db.plans,
  All-with_steps db (filter (is_listed tag query) (sort_by by_name db.plans)),
  count-sort_by q _ (filter _ db.bindings) ∙ count-filter_and _ q db.bindings,
)
