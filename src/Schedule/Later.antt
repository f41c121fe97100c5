-- ===== src/Schedule/Later.antt =====
-- The next firing of a spec that parses is a whole second later at least.
use cogitorium.Prelude.{
  ℕ, ◌<◌, ◌≤◌, ◌≡◌, refl, true, Option, none, some, List, [], ◌∷◌, arith, inl, inr, ◌⊎◌, Bool-cases,
  ltb, Text, codes, cut_prefix, trim_space, to_lower, is_empty, fields, ℤ, pos, negsuc,
}
use cogitorium.Schedule.Duration.{parse_duration}
use cogitorium.Schedule.Spec.{
  Result, ok, err, ◌>>=◌, Spec, min_every, field_set, parse_fields, parse_cron, every_spec,
  parse_trimmed, parse,
}
use cogitorium.Schedule.Next.{Calendar, next}
use cogitorium.Schedule.Firing.{next_sound}
use cogitorium.Schedule.Table.{stamp}

>>=-ok {ℓ} :
    {Value : Type ℓ} (field : Result Value) (rest : Value → Result Spec) {s : Spec}
    → (field >>= rest) ≡ ok s
    → (value : Value) × (rest value ≡ ok s)
>>=-ok (err e) rest h = cc
>>=-ok (ok value) rest h = (value, h)

parse_fields-cron : (l : List Text) {s : Spec} → parse_fields l ≡ ok s → s.cron ≡ true
unfolding parse_fields
parse_fields-cron (f0 ∷ f1 ∷ f2 ∷ f3 ∷ f4 ∷ []) h =
    let (_, h1) = >>=-ok (field_set 0 f0) _ h in
    let (_, h2) = >>=-ok (field_set 1 f1) _ h1 in
    let (_, h3) = >>=-ok (field_set 2 f2) _ h2 in
    let (_, h4) = >>=-ok (field_set 3 f3) _ h3 in
    let (_, h5) = >>=-ok (field_set 4 f4) _ h4 in ground arith
parse_fields-cron _ h = cc

every_spec-slow :
    (text : Text) (o : Option ℤ) {s : Spec} → every_spec text o ≡ ok s → min_every ≤ s.every
every_spec-slow text none h = cc
every_spec-slow text (some (negsuc n)) h = cc
every_spec-slow text (some (pos d)) h = elim (Bool-cases (ltb d min_every)) [
  | inl e ↦ absurd (cc (rw e at h))
  | inr e ↦ ground arith
]

module _ (fraction : Text → ℕ → ℕ) where
  by_form :
      (text : Text) (o : Option Text) {s : Spec}
      → cut_prefix text (codes "every ") ≡ o
      → parse_trimmed fraction text ≡ ok s
      → (s.cron ≡ true) ⊎ (min_every ≤ s.every)
  unfolding parse_trimmed parse_cron
  by_form text none e h = elim (Bool-cases (is_empty text)) [
    | inl q ↦ absurd (cc (rw q at h))
    | inr q ↦ inl (parse_fields-cron (fields text) (rw (q, e) at h))
  ]
  by_form text (some rest) e h = elim (Bool-cases (is_empty text)) [
    | inl q ↦ absurd (cc (rw q at h))
    | inr q ↦
        inr (every_spec-slow text (parse_duration fraction (trim_space rest)) (rw (q, e) at h))
  ]

  parsed_form :
      (text : Text) {s : Spec}
      → parse fraction text ≡ ok s
      → (s.cron ≡ true) ⊎ (min_every ≤ s.every)
  unfolding parse
  parsed_form text h =
      let t = trim_space (to_lower text) in by_form t (cut_prefix t (codes "every ")) refl h

  -- Both forms of a spec that parses come round a second later at least.
  pub next_later :
      (text : Text) {s : Spec} (at : ℕ) (cal : Calendar) (t : ℕ)
      → parse fraction text ≡ ok s
      → next s at cal ≡ some t
      → stamp at < stamp t
  next_later text {s} at cal t p h =
      let (after, form) = next_sound s at cal t h in
      elim form [
        | inl (plain, e) ↦ elim (parsed_form text p) [
          | inl cron ↦ absurd (cc (plain, cron))
          | inr slow ↦ ground arith
        ]
        | inr (u, e, _, _) ↦ ground arith
      ]
