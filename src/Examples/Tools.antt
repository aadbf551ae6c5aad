-- ===== src/Examples/Tools.antt =====
-- A workspace with one file of three lines.
use csoj_judger.Prelude.{
  ℕ, ◌+◌, ◌<◌, ◌≡◌, refl, ◌↔◌, false, none, some, List, [], ◌∷◌, length, take, drop, arith,
}
use csoj_judger.Prelude.Int.{pos}
use csoj_judger.Prelude.Order.{text, nat_ord, list_ord}
use csoj_judger.Prelude.Text.{split}
use csoj_judger.Prelude.Result.{ok, err}
use csoj_judger.Json.{str, int, Fields, fields}
use csoj_judger.AgentTools.Tree.{
  AgentWorkspace, Entries, resolve_directory, end, entry, file, resolve_file, resolve, root,
  safe_parts, resolve_parts, stat, os_error,
}
use csoj_judger.AgentTools.Tree.Safety.{IsReachable, resolve_file_iff}
use csoj_judger.AgentTools.Paging.{Page, fit_list_payload, fitted_page, page_with}
use csoj_judger.AgentTools.Paging.Laws.{
  IsLongestFit, fit_list_payload-IsLongestFit, fitted_page_next,
}
use csoj_judger.AgentTools.Broker.{ReadOnlyToolBroker}
use csoj_judger.AgentTools.Broker.Following.{tree_entries, IsShown, follow, follow-IsShown}
use csoj_judger.AgentTools.Listing.{visit, Library, Limits, rstrip_newlines}
use csoj_judger.AgentTools.Reading.{lines_read, read_loop, validate_evidence, accepted}
use csoj_judger.AgentTools.Reading.Laws.{remaining, IsAnswer, lines_read-IsAnswer}
use csoj_judger.AgentReviewer.Report.Laws.{IsEvidence, validate_evidence_iff}

abbrev code : List ℕ
code = 97 ∷ 10 ∷ 98 ∷ 10 ∷ 99 ∷ 10 ∷ []

abbrev pub workspace : AgentWorkspace
workspace = record {
  submission = entry (text "a.c") (file code) end;
  baseline = end;
  context = end;
}

resolve_file_iff_example :
    (resolve_file workspace (text "submission") (text "a.c") ≡ ok code)
    ↔ IsReachable workspace (text "submission") (text "a.c") code
resolve_file_iff_example = resolve_file_iff workspace (text "submission") (text "a.c") code

-- A path below a file is not refused as a tool's error.
below_a_file : resolve_file workspace (text "submission") (text "a.c/x") ≡ err os_error
unfolding resolve_file resolve root safe_parts resolve_parts stat split
below_a_file = refl

abbrev items : List ℕ
items = 5 ∷ 6 ∷ 7 ∷ []

fit_list_payload-IsLongestFit_example :
    IsLongestFit
      (λ xs. 10 + length xs)
      12
      items
      (fit_list_payload {A = ℕ} (λ xs. 10 + length xs) 12 items)
fit_list_payload-IsLongestFit_example =
    fit_list_payload-IsLongestFit (λ xs. 10 + length xs) 12 items

abbrev page_size : Page ℕ → ℕ
page_size page = 10 + length page.items

page_is_stuck : (fitted_page page_size 8 2 1 items).next ≡ some 1
unfolding fitted_page fit_list_payload
page_is_stuck = refl

fitted_page_next_example :
    (1 ≡ 1 + length (fitted_page page_size 8 2 1 items).items)
    × (1 < length {A = ℕ} items)
    × (◌≡◌ {A = ℕ} 1 1 → 8 < page_size (page_with 1 3 (take 1 (drop 1 items))))
fitted_page_next_example = fitted_page_next page_size 8 2 1 1 items (omega arith) page_is_stuck

abbrev pub library : Library
library = record {
  json_size = λ v. 100;
  sorted_json_size = λ v. 100;
  lines = λ bytes. (97 ∷ 10 ∷ []) ∷ (98 ∷ 10 ∷ []) ∷ (99 ∷ 10 ∷ []) ∷ [];
  casefold = λ s. s;
  sha256 = λ bytes. [];
}

abbrev pub limits : Limits
limits = record {
  max_response_bytes = 200;
  max_tree_entries = 10;
  max_search_matches = 10;
  max_read_lines = 2;
  max_diff_lines = 10;
}

-- Two files, listed one to a page.
abbrev two_files : Entries
two_files = entry (text "a.c") (file code) (entry (text "b.c") (file code) end)

abbrev broker : ReadOnlyToolBroker
broker = record {
  workspace = record workspace { submission = two_files };
  limits = record limits { max_tree_entries = 1 };
  lib = library;
  compare_file = λ arguments. err os_error;
}

its_directory : resolve_directory broker.workspace (text "submission") (text ".") ≡ ok two_files
unfolding resolve_directory resolve root safe_parts resolve_parts stat split
its_directory = refl

its_entries : length (tree_entries broker (text "submission") (text ".") 3 two_files) ≡ 2
unfolding visit
its_entries = refl

follow-IsShown_example :
    IsShown broker
      (text "submission")
      (text ".")
      3
      two_files
      0
      (follow broker (text "submission") (text ".") 3 3 0)
follow-IsShown_example =
    follow-IsShown broker (text "submission") (text ".") 3 two_files 3 0 its_directory refl
      (omega arith) (omega arith) (omega (arith, its_entries))

lines_read-IsAnswer_example :
    IsAnswer library limits
      (text "submission")
      (text "a.c")
      1
      3
      (remaining library code 1)
      (lines_read library limits (text "submission") (text "a.c") 1 3 code)
lines_read-IsAnswer_example =
    lines_read-IsAnswer library limits (text "submission") (text "a.c") 1 3 code (omega arith)
      (omega arith) (omega arith)

-- A request for three lines, clipped to two, is answered as if nothing were left.
clipped_request : lines_read library limits (text "submission") (text "a.c") 1 3 code ≡ record {
  lines =
      (record { number = 1; shown = 97 ∷ []; is_cut = false })
      ∷ (record { number = 2; shown = 98 ∷ []; is_cut = false })
      ∷ [];
  next = none;
}
unfolding lines_read read_loop rstrip_newlines
clipped_request = refl

abbrev evidence : Fields
evidence = fields (
    (text "root", str (text "submission"))
    ∷ (text "path", str (text "a.c"))
    ∷ (text "start_line", int (pos 2))
    ∷ (text "end_line", int (pos 3))
    ∷ [])

validate_evidence_iff_example :
    (validate_evidence workspace evidence ≡ accepted) ↔ IsEvidence workspace evidence
validate_evidence_iff_example = validate_evidence_iff workspace evidence
