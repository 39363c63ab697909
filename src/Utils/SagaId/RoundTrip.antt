-- ===== src/Utils/SagaId/RoundTrip.antt =====
-- `makeSagaId` and `parseSagaId` are inverse to one another.
use node_cqrs.Common.{
  ℕ, zero, suc, ◌≡◌, refl, ap, sym, ◌∙◌, ◌<◌, ◌≢◌, inl, inr, true, none, some, [], ◌∷◌, ◌++◌, Text,
  truthy, arith, Option-cases,
}
use native.Mathlib.Numerals.{add-one}
use node_cqrs.Common.Lists.{length, take, drop, length-append}
use node_cqrs.Messages.{ok, ◌>>=◌}
use node_cqrs.Utils.SagaId.{colon, make_saga_id, parse_saga_id, last_index_of, split_at}

-- The text has no colon.
abbrev pub IsColonFree : Text → Type 0
IsColonFree [] = Unit
IsColonFree (x ∷ xs) = (x ≢ colon) × IsColonFree xs

last_index_of-none : (o : Text) → IsColonFree o → last_index_of colon o ≡ none
unfolding last_index_of
last_index_of-none [] h = refl
last_index_of-none (x ∷ xs) h = rw (last_index_of-none xs h.1, last_index_of) (ground (arith, h.0))

last_index_of-append :
    (d o : Text) → IsColonFree o → last_index_of colon (d ++ colon ∷ o) ≡ some (length d)
unfolding last_index_of
last_index_of-append [] o h = rw (last_index_of-none o h, last_index_of) refl
last_index_of-append (x ∷ d) o h = rw (last_index_of-append d o h, last_index_of) refl

take-length-append : (d o : Text) → take (length d) (d ++ o) ≡ d
take-length-append [] o = refl
take-length-append (x ∷ d) o = ap (◌∷◌ x) (take-length-append d o)

drop-suc-length-append : (d o : Text) → drop (suc (length d)) (d ++ colon ∷ o) ≡ o
drop-suc-length-append [] o = refl
drop-suc-length-append (x ∷ d) o = drop-suc-length-append d o

split_at-append :
    (d o : Text) → d ≢ [] → o ≢ [] → split_at (d ++ colon ∷ o) (some (length d)) ≡ ok (d, o)
unfolding split_at
split_at-append [] o hd ho = absurd (hd refl)
split_at-append (x ∷ d) [] hd ho = absurd (ho refl)
split_at-append (x ∷ d) (y ∷ o) hd ho =
    rw (take-length-append (x ∷ d) (colon ∷ y ∷ o), add-one, drop-suc-length-append (x ∷ d) (y ∷ o))
      (ground (arith, length-append d (colon ∷ y ∷ o)))

-- An identifier made of a descriptor and a colon-free origin is taken apart again. The descriptor
-- may hold colons.
pub parse-make :
    (d o : Text)
    → d ≢ []
    → o ≢ []
    → IsColonFree o
    → (make_saga_id d o >>= parse_saga_id) ≡ ok (d, o)
unfolding make_saga_id parse_saga_id
parse-make [] o hd ho free = absurd (hd refl)
parse-make (x ∷ d) [] hd ho free = absurd (ho refl)
parse-make (x ∷ d) (y ∷ o) hd ho free =
    rw (last_index_of-append (x ∷ d) (y ∷ o) free) (split_at-append (x ∷ d) (y ∷ o) hd ho)

-- `last_index_of` finds a colon after which there is none.
last_index_of-none_free : (s : Text) → last_index_of colon s ≡ none → IsColonFree s
unfolding last_index_of
last_index_of-none_free [] h = tt
last_index_of-none_free (x ∷ s) h = elim (Option-cases (last_index_of colon s)) [
  | inl e ↦ (ground (arith, e), last_index_of-none_free s e)
  | inr (j, e) ↦ ground (arith, e)
]

last_index_of-splits :
    (s : Text) (i : ℕ)
    → last_index_of colon s ≡ some i
    → (s ≡ take i s ++ colon ∷ drop (suc i) s) × IsColonFree (drop (suc i) s)
unfolding last_index_of
last_index_of-splits [] i h = cc
last_index_of-splits (x ∷ s) zero h = elim (Option-cases (last_index_of colon s)) [
  | inl e ↦ (ground (arith, e), last_index_of-none_free s e)
  | inr (j, e) ↦ ground (arith, e)
]
last_index_of-splits (x ∷ s) (suc i) h =
    let ih = last_index_of-splits s i (ground arith) in (ap (◌∷◌ x) ih.0, ih.1)

truthy-drop : (n : ℕ) (s : Text) → n < length s → truthy (drop n s) ≡ true
truthy-drop zero [] h = elim h [ ]
truthy-drop zero (x ∷ s) h = refl
truthy-drop (suc n) [] h = elim h [ ]
truthy-drop (suc n) (x ∷ s) h = truthy-drop n s (omega arith)

split_at-inverts :
    (s d o : Text) (i : ℕ)
    → last_index_of colon s ≡ some i
    → split_at s (some i) ≡ ok (d, o)
    → (make_saga_id d o ≡ ok s) × IsColonFree o
unfolding make_saga_id split_at last_index_of
split_at-inverts [] d o i e h = cc
split_at-inverts (x ∷ s) d o zero e h = ground arith
split_at-inverts (x ∷ s) d o (suc i) e h =
    let parts = last_index_of-splits (x ∷ s) (suc i) e in
    ground (arith, parts.0, parts.1, add-one i, truthy-drop (suc i) s)

-- What is taken apart makes the same identifier again, and its origin has no colon.
pub make-parse :
    (s d o : Text) → parse_saga_id s ≡ ok (d, o) → (make_saga_id d o ≡ ok s) × IsColonFree o
unfolding parse_saga_id
make-parse [] d o h = cc
make-parse (x ∷ s) d o h = elim (Option-cases (last_index_of colon (x ∷ s))) [
  | inl e ↦ cc (h, e)
  | inr (j, e) ↦ split_at-inverts (x ∷ s) d o j e (ap (split_at (x ∷ s)) (sym e) ∙ h)
]
