-- ===== src/Examples/Stream.antt =====
-- A stream that ends after one piece of content, and arguments in three fragments.
use csoj_judger.Prelude.{◌≡◌, refl, ◌≢◌, subst, false, some, [], ◌∷◌, map}
use csoj_judger.Prelude.Order.{Text, text, ◌===◌, nat_ord, list_ord}
use csoj_judger.Prelude.Result.{ok}
use csoj_judger.Json.{int, str, obj, arr, end, fields, items}
use csoj_judger.Prelude.Int.{pos}
use csoj_judger.AgentTools.Listing.{rstrip_newlines}
use csoj_judger.AgentReviewer.Stream.{merge_call, merge_calls}
use csoj_judger.AgentReviewer.Stream.Fragments.{fragment, merge_calls-concat}
use csoj_judger.AgentReviewer.Stream.Reading.{Wire, field_value, read_stream}
use csoj_judger.AgentReviewer.Stream.Reading.Interrupted.{HasNoDone, read_stream_interrupted}

merge_calls-concat_example :
    merge_calls [] (map (fragment 0) (text "{\"path\":" ∷ text "\"main.c\"" ∷ text "}" ∷ []))
    ≡ merge_call [] (fragment 0 (text "{\"path\":\"main.c\"}"))
merge_calls-concat_example =
    merge_calls-concat [] 0 (text "{\"path\":") (text "\"main.c\"" ∷ text "}" ∷ [])

abbrev wire : Wire
wire = record {
  decode = λ raw. some (text "data: x");
  loads = λ t. some (
      obj (
        fields (
          (
            text "choices",
            arr (
                items (
                  obj (
                    fields (
                      (text "index", int (pos 0))
                      ∷ (text "delta", obj (fields ((text "content", str (text "hi")) ∷ [])))
                      ∷ []))
                  ∷ [])),
          )
          ∷ [])));
  is_zero = λ t. false;
}

lines_are_not_done : HasNoDone wire ((1 ∷ []) ∷ [])
unfolding rstrip_newlines
lines_are_not_done raw m line h =
    subst (λ (t : Text). (field_value (rstrip_newlines t) === text "[DONE]") ≡ false) (same h) refl
  where
    same : {a b : Text} → some a ≡ some b → a ≡ b
    same h = cc h

read_stream_interrupted_example : read_stream wire ((1 ∷ []) ∷ []) ≢ ok end
read_stream_interrupted_example =
    read_stream_interrupted wire ((1 ∷ []) ∷ []) end lines_are_not_done
