-- ===== src/Execute/Reply.antt =====
-- What the commands reply and store, over the specification of the storage.
use mathlib.Core.List.{append_assoc}
use ts_sem.Prelude.{
  ℕ, ◌<◌, ◌≡◌, refl, sym, false, none, some, List, [], ◌∷◌, ◌++◌, arith, length, length-append, ltb,
  lt→ltb, le→ltb, ap, ◌∙◌, Option-cases, inl, inr,
}
use ts_sem.Prelude.Bytes.{Bytes, codes}
use ts_sem.Run.{ok, Ends}
use ts_sem.Storage.Spec
use ts_sem.Storage.Spec.{
  Entries, weight, lookup, remove, fit, lookup-front, lookup-touched, remove-touched,
}
use ts_sem.Storage.Api.{spec_api, shrinks}
use ts_sem.Execute.{
  InsertCommand, execute_set, execute_append, execute_get, get_loop, append_found, item, stored,
}

-- Append to a key that holds `w`, over the specification, replies STORED in every case: it stores
-- `w` followed by the argument in front of the other entries that fit, and keeps `w`, with the same
-- reply, where the result is larger than the cache; it is never undefined.
pub append_present :
    (max : ℕ) (c : InsertCommand) (args w : Bytes) (es : Entries)
    → lookup c.key es ≡ some w
    → execute_append (spec_api max) c args es
      ≡ ok stored (Spec.replace_front max c.key (w ++ args) w (remove c.key es)).1
unfolding execute_append append_found
append_present max c args w es e =
    let fits : ltb (length (w ++ args)) (length w) ≡ false =
      le→ltb _ _ (omega (arith, length-append w args)) in
    rw
      (
        e,
        Spec.get,
        lookup-front c.key w (remove c.key es),
        shrinks,
        fits,
        Spec.put,
        remove-touched c.key w es,
      )
      refl

-- Set of an absent key with an entry that is larger than the cache replies STORED, over the
-- specification, and stores nothing.
pub set_too_large :
    (max : ℕ) (c : InsertCommand) (args : Bytes) (es : Entries)
    → lookup c.key es ≡ none
    → max < weight (c.key, args)
    → execute_set (spec_api max) c args es ≡ ok stored es
unfolding execute_set
set_too_large max c args es e big =
    rw (e, shrinks, Spec.put, lt→ltb max (weight (c.key, args)) big) refl

-- The items of a Get reply: those of the keys that are present, in the order of the request.
abbrev pub items : List Bytes → Entries → Bytes
items [] es = []
items (k ∷ ks) es = elim (lookup k es) [ none ↦ items ks es | some v ↦ item k v ++ items ks es ]

-- What a Get leaves: the same value behind every key.
abbrev pub SameLookups : Entries → Entries → Type 0
SameLookups es t = (j : Bytes) → lookup j t ≡ lookup j es

items-SameLookups : (ks : List Bytes) (es t : Entries) → SameLookups es t → items ks t ≡ items ks es
items-SameLookups [] es t same = refl
items-SameLookups (k ∷ ks) es t same = ground (arith, same k, items-SameLookups ks es t same)

items-absent :
    (k : Bytes) (ks : List Bytes) (es : Entries)
    → lookup k es ≡ none
    → items (k ∷ ks) es ≡ items ks es
items-absent k ks es e = ground (arith, e)

items-present :
    (k v : Bytes) (ks : List Bytes) (es : Entries)
    → lookup k es ≡ some v
    → items (k ∷ ks) es ≡ item k v ++ items ks es
items-present k v ks es e = ground (arith, e)

get_loop-items :
    (max : ℕ) (ks : List Bytes) (value out : Bytes) (es : Entries)
    → Ends
        (get_loop (spec_api max) ks value out es)
        (out ++ (items ks es ++ codes "END"))
        (SameLookups es)
unfolding get_loop
get_loop-items max [] value out es = (es, refl, λ j. refl)
get_loop-items max (k ∷ ks) value out es = elim (Option-cases (lookup k es)) [
  | inl e ↦
      let (t, run, same) = get_loop-items max ks value out es in
      rw (e, Spec.get)
        (t, run ∙ ap (λ x. ok (out ++ (x ++ codes "END")) t) (sym (items-absent k ks es e)), same)
  | inr (v, e) ↦
      let es' : Entries = (k, v) ∷ remove k es in
      let touched : SameLookups es es' = λ j. lookup-touched j k v es e in
      let (t, run, same) = get_loop-items max ks v (out ++ item k v) es' in
      let end : (out ++ item k v) ++ (items ks es' ++ codes "END")
          ≡ out ++ (items (k ∷ ks) es ++ codes "END") =
        simp (items-SameLookups ks es es' touched, items-present k v ks es e, append_assoc) in
      rw (e, Spec.get) (t, run ∙ ap (λ x. ok x t) end, λ j. same j ∙ touched j)
]

-- Get over the specification ends: it replies with the items of the present keys, with 0 for their
-- flags, in the order of the request and then END, and afterwards every key has the value that it
-- had before.
pub execute_get-items :
    (max : ℕ) (ks : List Bytes) (es : Entries)
    → Ends (execute_get (spec_api max) ks es) (items ks es ++ codes "END") (SameLookups es)
unfolding execute_get
execute_get-items max ks es = get_loop-items max ks [] [] es
