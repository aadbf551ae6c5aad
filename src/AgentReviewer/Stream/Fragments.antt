-- ===== src/AgentReviewer/Stream/Fragments.antt =====
-- How the arguments of a tool call are cut into fragments does not matter.
use csoj_judger.Prelude.{ℕ, ◌≡◌, refl, ap, Bool-cases, inl, inr, List, [], ◌∷◌, ◌++◌, map}
use csoj_judger.Prelude.Int.{pos}
use csoj_judger.Prelude.Order.{Text, text, ◌===◌, ===_iff, nat_ord, list_ord}
use csoj_judger.Prelude.Dict
use csoj_judger.Prelude.Dict.{Dict, put, get-put}
use csoj_judger.Prelude.Result.{ok}
use csoj_judger.Json
use csoj_judger.Json.{Json, int, str, obj, fields}
use csoj_judger.AgentReviewer.Stream.{
  PartialCall, Calls, call_at, merge_fields, merge_call, merge_calls,
}

put-put : (d : Calls) (k : ℕ) (v w : PartialCall) → put (put d k v) k w ≡ put d k w
unfolding put
put-put [] k v w = rw ((===_iff k k).1 refl) refl
put-put ((j, x) ∷ d) k v w = elim (Bool-cases (j === k)) [
  | inl y ↦ rw y (rw y refl)
  | inr n ↦ rw n (rw n (ap (λ (t : Calls). (j, x) ∷ t) (put-put d k v w)))
]

-- A part of the arguments of the call with the index, and of nothing else.
abbrev pub fragment : ℕ → Text → Json
fragment index part = obj (
    fields (
      (text "index", int (pos index))
      ∷ (text "function", obj (fields ((text "arguments", str part) ∷ [])))
      ∷ []))

abbrev pub concat : List Text → Text
concat [] = []
concat (t ∷ ts) = t ++ concat ts

abbrev extended : Calls → ℕ → Text → Calls
extended calls index part =
    let call = call_at (Dict.get calls index) in
    put calls index (record call { arguments = call.arguments ++ part })

merge_fragment :
    (calls : Calls) (index : ℕ) (part : Text)
    → merge_call calls (fragment index part) ≡ ok (extended calls index part)
unfolding merge_call merge_fields Json.get
merge_fragment calls index part = refl

append_assoc : (a b c : Text) → (a ++ b) ++ c ≡ a ++ (b ++ c)
append_assoc [] b c = refl
append_assoc (x ∷ a) b c = ap (λ t. x ∷ t) (append_assoc a b c)

append_nil : (a : Text) → a ++ [] ≡ a
append_nil [] = refl
append_nil (x ∷ a) = ap (λ t. x ∷ t) (append_nil a)

extended_twice :
    (calls : Calls) (index : ℕ) (a b : Text)
    → extended (extended calls index a) index b ≡ extended calls index (a ++ b)
extended_twice calls index a b =
    let call = call_at (Dict.get calls index) in
    rw
      (
        get-put calls index index (record call { arguments = call.arguments ++ a }),
        (===_iff index index).1 refl,
        put-put calls index (record call { arguments = call.arguments ++ a })
            (record call { arguments = (call.arguments ++ a) ++ b }),
        append_assoc call.arguments a b,
      )
      refl

-- The arguments of a tool call may arrive in any number of fragments, one at least: the calls are those
-- that one fragment with all of the text would have made.
pub merge_calls-concat :
    (calls : Calls) (index : ℕ) (part : Text) (parts : List Text)
    → merge_calls calls (map (fragment index) (part ∷ parts))
      ≡ merge_call calls (fragment index (concat (part ∷ parts)))
unfolding merge_calls
merge_calls-concat calls index part [] =
    rw (merge_fragment calls index part, append_nil part, merge_fragment calls index part) refl
merge_calls-concat calls index part (next ∷ parts) =
    let more = merge_calls-concat (extended calls index part) index next parts in
    rw
      (
        merge_fragment calls index part,
        more,
        merge_fragment (extended calls index part) index (concat (next ∷ parts)),
        merge_fragment calls index (concat (part ∷ next ∷ parts)),
        extended_twice calls index part (concat (next ∷ parts)),
      )
      refl
