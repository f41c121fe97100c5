-- ===== src/Secrets/Stream.antt =====
-- What a stream puts out, over all of its chunks: Chunk and Flush in internal/secrets/redact.go.
use cogitorium.Prelude.{
  ℕ, zero, suc, ◌-◌, ◌≤◌, ◌≡◌, refl, sym, ap, true, false, List, [], ◌∷◌, ◌++◌, arith, inl, inr,
  ◌⊎◌, Bool-cases, length, ◌==◌, leb, Text, length-append, any-append, Memᴰ,
}
use cogitorium.Secrets.Redact.{
  Redactor, replace_each, redact, drop, take, smaller, max_hold, hold, chunk, flush, stream,
  is_active,
}
use cogitorium.Secrets.Hidden.{occurs, IsPlain, occurs-each, replace_nil}
use cogitorium.Secrets.Firm.{Firm, Firm-each}
use cogitorium.Secrets.Across.{occurs-across, append_assoc, append_nil}

-- What was put out, with the carry: no value stands in it, and none can begin before the carry
-- and end after it.
pub record Held (v o c : Text) : Type 0 where
  pub nowhere : occurs v (o ++ c) ≡ false
  pub firm : (o ≡ []) ⊎ Firm (length v - 1) c

take-drop : (n : ℕ) (s : Text) → take n s ++ drop n s ≡ s
unfolding take drop
take-drop zero s = refl
take-drop (suc n) [] = refl
take-drop (suc n) (c ∷ s) = ap (λ t. c ∷ t) (take-drop n s)

length-drop : (n : ℕ) (s : Text) → length (drop n s) ≡ length s - n
unfolding drop
length-drop zero s = omega arith
length-drop (suc n) [] = omega arith
length-drop (suc n) (c ∷ s) = omega (arith, length-drop n s)

Firm-append : (n : ℕ) (c t : Text) → Firm n c → Firm n (c ++ t)
Firm-append n c t (inl f) = inl (omega (arith, f, length-append c t))
Firm-append n c t (inr f) = inr (ground (arith, any-append (λ d. d == b'[') c t, f))

-- The values of a redactor are no longer than its longest, and short enough to be held back.
pub record Fitting (r : Redactor) (v : Text) : Type 0 where
  pub listed : Memᴰ v r.values
  pub in_longest : length v ≤ r.max_len
  pub in_hold : length v ≤ 4097

smaller-least : (n a b : ℕ) → n ≤ a → n ≤ b → n ≤ smaller a b
smaller-least n a b h k = ground (arith, h, k)

wide_or_nothing : (n m l : ℕ) → n ≤ m → (l - smaller m l ≡ 0) ⊎ (n ≤ l - (l - smaller m l))
wide_or_nothing n m l h = elim (Bool-cases (leb m l)) [
  | inl e ↦ inr (ground (arith, e, h))
  | inr e ↦ inl (ground (arith, e))
]

-- A chunk puts nothing out, or leaves a carry as long as a value less a byte.
chunk_waits :
    (r : Redactor) (v s : Text)
    → Fitting r v
    → (length s - hold r s ≡ 0) ⊎ (length v - 1 ≤ length (drop (length s - hold r s) s))
unfolding hold
chunk_waits r v s f =
    let least =
      smaller-least (length v - 1) (r.max_len - 1) max_hold (omega (arith, f.in_longest))
        (omega (arith, f.in_hold)) in
    elim (wide_or_nothing (length v - 1) (smaller (r.max_len - 1) max_hold) (length s) least) [
      | inl e ↦ inl e
      | inr e ↦ inr (rw (length-drop (length s - hold r s) s) e)
    ]

-- A listed value makes the redactor active.
listed-is_active :
    (vs : List Text) (n : ℕ) (v : Text)
    → Memᴰ v vs
    → is_active (record { values = vs; max_len = n }) ≡ true
listed-is_active [] n v m = elim m [ ]
listed-is_active (w ∷ vs) n v m = refl

pub replace-nothing : (vs : List Text) → replace_each vs [] ≡ []
unfolding replace_each
replace-nothing [] = refl
replace-nothing (v ∷ vs) = rw (replace_nil v 0) (replace-nothing vs)

replaced_or_same :
    (vs : List Text) (n : ℕ) (s : Text)
    → redact (record { values = vs; max_len = n }) s ≡ replace_each vs s
unfolding redact
replaced_or_same [] n s = unfold replace_each in refl
replaced_or_same (v ∷ vs) n [] = sym (replace-nothing (v ∷ vs))
replaced_or_same (v ∷ vs) n (c ∷ s) = refl

-- The early return changes nothing.
pub redact-values : (r : Redactor) (s : Text) → redact r s ≡ replace_each r.values s
redact-values r s = replaced_or_same r.values r.max_len s

chunk-active :
    (r : Redactor) (c t : Text)
    → is_active r ≡ true
    → chunk r c t ≡ (
      drop (length (redact r (c ++ t)) - hold r (redact r (c ++ t))) (redact r (c ++ t)),
      take (length (redact r (c ++ t)) - hold r (redact r (c ++ t))) (redact r (c ++ t)),
    )
unfolding chunk
chunk-active r c t h = rw h refl

-- What the redactor makes of the carry and a chunk brings no value to what was put out.
redact-across :
    (r : Redactor) (v o c t : Text)
    → Fitting r v
    → IsPlain v
    → Held v o c
    → occurs v (o ++ redact r (c ++ t)) ≡ false
redact-across r v o c t f p h =
    let bare = occurs-each r.values v (c ++ t) f.listed p in
    rw (redact-values r (c ++ t)) (elim h.firm [
      | inl e ↦ rw e bare
      | inr q ↦ occurs-across v o c t r.values p.plain q bare h.nowhere
    ])

Firm-redact : (r : Redactor) (n : ℕ) (s : Text) → Firm n s → Firm n (redact r s)
Firm-redact r n s h = rw (redact-values r s) (Firm-each n r.values s h)

nothing_out : (o s : Text) (k : ℕ) → k ≡ 0 → (o ++ take k s ≡ o) × (drop k s ≡ s)
unfolding take drop
nothing_out o s k e = rw e (append_nil o, refl)

Firm-kept :
    (r : Redactor) (n : ℕ) (o c t : Text) (k : ℕ)
    → k ≡ 0
    → (o ≡ []) ⊎ Firm n c
    → (o ++ take k (redact r (c ++ t)) ≡ []) ⊎ Firm n (drop k (redact r (c ++ t)))
Firm-kept r n o c t k e h =
    let (a, b) = nothing_out o (redact r (c ++ t)) k e in
    elim h [
      | inl q ↦ inl (rw (a, q) refl)
      | inr f ↦ inr (rw b (Firm-redact r n (c ++ t) (Firm-append n c t f)))
    ]

-- A chunk keeps the output and the carry such.
Held-chunk :
    (r : Redactor) (v o c t : Text)
    → Fitting r v
    → IsPlain v
    → Held v o c
    → Held v (o ++ (chunk r c t).1) (chunk r c t).0
Held-chunk r v o c t f p h =
    let buf = redact r (c ++ t) in
    let k = length buf - hold r buf in
    rw (chunk-active r c t (listed-is_active r.values r.max_len v f.listed)) record {
      nowhere =
          rw (← append_assoc o (take k buf) (drop k buf), take-drop k buf)
            (redact-across r v o c t f p h);
      firm = elim (chunk_waits r v buf f) [
        | inr w ↦ inr (inl w)
        | inl e ↦ Firm-kept r (length v - 1) o c t k e h.firm
      ];
    }

stream-cons :
    (r : Redactor) (c t : Text) (ts : List Text)
    → stream r c (t ∷ ts) ≡ (chunk r c t).1 ++ stream r (chunk r c t).0 ts
unfolding stream
stream-cons r c t ts = refl

stream_end : (r : Redactor) (c : Text) → stream r c [] ≡ redact r (c ++ [])
unfolding stream flush
stream_end r c = rw (append_nil c) refl

occurs-stream_after :
    (r : Redactor) (v o c : Text) (ts : List Text)
    → Fitting r v
    → IsPlain v
    → Held v o c
    → occurs v (o ++ stream r c ts) ≡ false
occurs-stream_after r v o c [] f p h = rw (stream_end r c) (redact-across r v o c [] f p h)
occurs-stream_after r v o c (t ∷ ts) f p h =
    rw (stream-cons r c t ts, append_assoc o (chunk r c t).1 (stream r (chunk r c t).0 ts))
      (occurs-stream_after r v (o ++ (chunk r c t).1) (chunk r c t).0 ts f p
        (Held-chunk r v o c t f p h))

nothing_in_nil : (v : Text) → IsPlain v → occurs v [] ≡ false
unfolding occurs
nothing_in_nil v p = p.some_text

-- However a run's output is cut into chunks, a plain value that the redactor lists and that is at
-- most 4,097 bytes long stands nowhere in all that the stream puts out, its flush included.
pub occurs-stream :
    (r : Redactor) (v : Text) (ts : List Text)
    → Fitting r v
    → IsPlain v
    → occurs v (stream r [] ts) ≡ false
occurs-stream r v ts f p =
    occurs-stream_after r v [] [] ts f p record { nowhere = nothing_in_nil v p; firm = inl refl }
