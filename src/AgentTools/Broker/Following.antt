-- ===== src/AgentTools/Broker/Following.antt =====
-- A client that asks for a directory's listing, one answer of `call` after the other.
use csoj_judger.Prelude.{
  ℕ, zero, suc, ◌+◌, ◌-◌, ◌≤◌, ◌<◌, ◌≡◌, refl, ap, sym, ◌∙◌, subst, true, false, ◌||◌, Option, none,
  some, List, [], ◌∷◌, ◌++◌, map, length, length-take, min, take, drop, is_nil, ltb, arith,
  Bool-cases, ◌⊎◌, inl, inr, if◌then◌else◌,
}
use csoj_judger.Prelude.Int.{pos}
use csoj_judger.Prelude.Order.{Text, text, nat_ord, list_ord}
use csoj_judger.Prelude.Result.{Result, ok, err}
use csoj_judger.Json
use csoj_judger.Json.{
  Json, null, bool, int, real, str, arr, obj, Items, nil, cons, Fields, fields, items,
}
use csoj_judger.AgentTools.Tree.{Failure, runtime_error, Entries, pure_parts, resolve_directory}
use csoj_judger.AgentTools.Arguments.{
  string_argument, optional_string_argument, optional_int_argument,
}
use csoj_judger.AgentTools.Paging.{Page, slice, is_truncated, page_of}
use csoj_judger.AgentTools.Listing.{
  ToolObservation, TreeEntry, tree_entry_json, cursor_json, tree_answer, visit, list_tree,
}
use csoj_judger.AgentTools.Broker.{ReadOnlyToolBroker, measured, call}

-- The arguments of the client, and what it reads in the answer.
abbrev pub tree_request : Text → Text → ℕ → ℕ → Fields
tree_request root_name path depth cursor = fields (
    (text "root", str root_name)
    ∷ (text "path", str path)
    ∷ (text "depth", int (pos depth))
    ∷ (text "cursor", int (pos cursor))
    ∷ [])

abbrev pub listed : Items → List Json
listed nil = []
listed (cons v vs) = v ∷ listed vs

abbrev pub listed_value : Option Json → List Json
listed_value (some (arr vs)) = listed vs
listed_value _ = []

abbrev pub cursor_value : Option Json → Option ℕ
cursor_value (some (int (pos n))) = some n
cursor_value _ = none

abbrev pub with_rest :
    List Json → Option ℕ → (ℕ → List Json × Option Failure) → List Json × Option Failure
with_rest values none next = (values, none)
with_rest values (some cursor) next = (values ++ (next cursor).0, (next cursor).1)

abbrev pub continued :
    Result Failure ToolObservation → (ℕ → List Json × Option Failure) → List Json × Option Failure
continued (err e) next = ([], some e)
continued (ok o) next =
    with_rest (listed_value (Json.get o.payload (text "entries")))
      (cursor_value (Json.get o.payload (text "next_cursor"))) next

-- The client that follows the cursors for at most `fuel` answers: the entries it was shown, and the
-- exception that ended it, if one did.
unfoldable pub follow : ReadOnlyToolBroker → Text → Text → ℕ → ℕ → ℕ → List Json × Option Failure
follow b root_name path depth zero cursor = ([], none)
follow b root_name path depth (suc fuel) cursor =
    continued (call b (text "list_tree") (tree_request root_name path depth cursor))
      (λ next. follow b root_name path depth fuel next)

take-append-drop : {A : Type 0} (n : ℕ) (xs : List A) → take n xs ++ drop n xs ≡ xs
take-append-drop zero xs = refl
take-append-drop (suc n) [] = refl
take-append-drop (suc n) (x ∷ xs) = ap (λ r. x ∷ r) (take-append-drop n xs)

take-append-take :
    {A : Type 0} (n k : ℕ) (xs : List A) → take n xs ++ take k (drop n xs) ≡ take (n + k) xs
take-append-take zero k xs = let e : zero + k ≡ k = omega arith in rw e refl
take-append-take (suc n) zero [] = let e : suc n + 0 ≡ suc (n + 0) = omega arith in rw e refl
take-append-take (suc n) (suc k) [] =
    let e : suc n + suc k ≡ suc (n + suc k) = omega arith in rw e refl
take-append-take (suc n) k (x ∷ xs) =
    let e : suc n + k ≡ suc (n + k) = omega arith in
    rw e (ap (λ r. x ∷ r) (take-append-take n k xs))

drop-drop : {A : Type 0} (n c m : ℕ) (xs : List A) → c + n ≡ m → drop n (drop c xs) ≡ drop m xs
drop-drop n zero m xs e = let e' : n ≡ m = omega (arith, e) in rw e' refl
drop-drop zero (suc c) zero [] e = refl
drop-drop zero (suc c) (suc m) [] e = refl
drop-drop (suc n) (suc c) zero [] e = refl
drop-drop (suc n) (suc c) (suc m) [] e = refl
drop-drop n (suc c) zero (x ∷ xs) e = absurd (omega (arith, e))
drop-drop n (suc c) (suc m) (x ∷ xs) e = drop-drop n c m xs (omega (arith, e))

length-drop : {A : Type 0} (c : ℕ) (xs : List A) → length (drop c xs) ≡ length xs - c
length-drop zero xs = omega arith
length-drop (suc c) [] = omega arith
length-drop (suc c) (x ∷ xs) = omega (arith, length-drop c xs)

take_all : {A : Type 0} (c : ℕ) (xs : List A) → length xs ≤ c → take c xs ≡ xs
take_all zero [] h = refl
take_all zero (x ∷ xs) h = absurd (omega (arith, h))
take_all (suc c) [] h = refl
take_all (suc c) (x ∷ xs) h = ap (λ r. x ∷ r) (take_all c xs (omega (arith, h)))

map-append : {A B : Type 0} (f : A → B) (xs ys : List A) → map f xs ++ map f ys ≡ map f (xs ++ ys)
map-append f [] ys = refl
map-append f (x ∷ xs) ys = ap (λ r. f x ∷ r) (map-append f xs ys)

listed-items : (vs : List Json) → listed (items vs) ≡ vs
listed-items [] = refl
listed-items (v ∷ vs) = ap (λ r. v ∷ r) (listed-items vs)

module _ (b : ReadOnlyToolBroker) (root_name path : Text) (depth : ℕ) (listing : Entries) where
  -- The entries of the whole listing, and the size of the answer from a cursor on.
  abbrev pub tree_entries : List TreeEntry
  tree_entries = visit listing (pure_parts path) depth

  abbrev pub answer_size : ℕ → ℕ
  answer_size cursor = b.lib.sorted_json_size (
      obj
        (tree_answer root_name path
          (page_of b.limits.max_tree_entries cursor tree_entries)).payload)

  -- What a client was shown from a cursor on: all the entries that were left, or the first of them up to
  -- an answer that is larger than a response may be, on which `call` raises a `RuntimeError`.
  pub data IsShown (cursor : ℕ) (r : List Json × Option Failure) : Type 0 where
    everything : r ≡ (map tree_entry_json (drop cursor tree_entries), none) → IsShown cursor r
    too_large :
        (k : ℕ)
        → k ≤ length tree_entries - cursor
        → b.limits.max_response_bytes < answer_size (cursor + k)
        → r ≡ (map tree_entry_json (take k (drop cursor tree_entries)), some runtime_error)
        → IsShown cursor r

  call_list_tree :
      (cursor : ℕ)
      → resolve_directory b.workspace root_name path ≡ ok listing
      → is_nil path ≡ false
      → depth ≤ 16
      → call b (text "list_tree") (tree_request root_name path depth cursor)
        ≡ measured b
            (tree_answer root_name path (page_of b.limits.max_tree_entries cursor tree_entries))
  unfolding call list_tree string_argument optional_string_argument optional_int_argument Json.get
  call_list_tree cursor found filled small =
      let d : (ltb depth 0 || ltb 16 depth) ≡ false = ground (arith, small) in
      let c : (ltb cursor 0 || false) ≡ false = ground arith in rw (filled, d, c, found) refl

  cursor_of_json : (o : Option ℕ) → cursor_value (some (cursor_json o)) ≡ o
  cursor_of_json none = refl
  cursor_of_json (some n) = refl

  module _ (next : ℕ → List Json × Option Failure) where
    answered :
        (p : Page TreeEntry)
        → ltb b.limits.max_response_bytes
            (b.lib.sorted_json_size (obj (tree_answer root_name path p).payload))
          ≡ false
        → continued (measured b (tree_answer root_name path p)) next
          ≡ with_rest (map tree_entry_json p.items) p.next next
    unfolding Json.get
    answered p small =
        rw small (rw (listed-items (map tree_entry_json p.items), cursor_of_json p.next) refl)

    refused :
        (p : Page TreeEntry)
        → ltb b.limits.max_response_bytes
            (b.lib.sorted_json_size (obj (tree_answer root_name path p).payload))
          ≡ true
        → continued (measured b (tree_answer root_name path p)) next ≡ ([], some runtime_error)
    refused p large = rw large refl

    -- What one page and the rest show together.
    page-IsShown :
        (cursor : ℕ)
        → 0 < b.limits.max_tree_entries
        → ((c : ℕ) → cursor < c → c < length tree_entries → IsShown c (next c))
        → IsShown cursor (
            with_rest
              (map tree_entry_json (page_of b.limits.max_tree_entries cursor tree_entries).items)
              (page_of b.limits.max_tree_entries cursor tree_entries).next
              next)
    unfolding page_of
    page-IsShown cursor some_fit rest =
        go (Bool-cases (is_truncated cursor shown (length tree_entries)))
      where
        limit : ℕ
        limit = b.limits.max_tree_entries

        shown : ℕ
        shown = length (slice limit cursor tree_entries)

        shown_min : shown ≡ min limit (length tree_entries - cursor)
        shown_min =
            omega
              (arith, length-take limit (drop cursor tree_entries), length-drop cursor tree_entries)

        after :
            (m : ℕ)
            → cursor + limit ≡ m
            → m < length tree_entries
            → IsShown m (next m)
            → IsShown cursor
                (with_rest (map tree_entry_json (slice limit cursor tree_entries)) (some m) next)
        after m e lt (everything q) =
            let d = drop-drop limit cursor m tree_entries e in
            let w = take-append-drop limit (drop cursor tree_entries) in
            let joined =
              map-append tree_entry_json (take limit (drop cursor tree_entries))
                (drop m tree_entries) in
            everything (rw q (ap (λ x. (x, none)) (joined ∙ ap (map tree_entry_json) (cc (d, w)))))
        after m e lt (too_large k h large q) =
            let d = drop-drop limit cursor m tree_entries e in
            let w = take-append-take limit k (drop cursor tree_entries) in
            let joined =
              map-append tree_entry_json (take limit (drop cursor tree_entries))
                (take k (drop m tree_entries)) in
            let at : m + k ≡ cursor + (limit + k) = omega (arith, e) in
            too_large (limit + k) (omega (arith, h, e, lt))
              (subst (λ x. b.limits.max_response_bytes < answer_size x) at large)
              (rw q
                (ap (λ x. (x, some runtime_error)) (joined ∙ ap (map tree_entry_json) (cc (d, w)))))

        go :
            (is_truncated cursor shown (length tree_entries) ≡ true)
              ⊎ (is_truncated cursor shown (length tree_entries) ≡ false)
            → IsShown cursor (
                with_rest
                  (map tree_entry_json (slice limit cursor tree_entries))
                  (if is_truncated cursor shown (length tree_entries)
                    then some (cursor + shown)
                    else none)
                  next)
        go (inl t) =
            let lt : cursor + shown < length tree_entries = ground (arith, t) in
            let full : shown ≡ limit = omega (arith, shown_min, lt) in
            rw t (
              after (cursor + shown) (omega (arith, full)) lt
                (rest (cursor + shown) (omega (arith, full, some_fit)) lt))
        go (inr n) =
            let le : length tree_entries ≤ cursor + shown = ground (arith, n) in
            let all : take limit (drop cursor tree_entries) ≡ drop cursor tree_entries =
              take_all limit (drop cursor tree_entries)
                (omega (arith, shown_min, le, length-drop cursor tree_entries)) in
            rw n (everything (rw all refl))

  -- A client that follows the cursors of `list_tree` from any point of a directory's listing, for more
  -- answers than entries are left, is shown exactly the rest of the entries, in order and each once;
  -- or it is shown a first part of them, and the next answer, of as many entries as the limit of entries
  -- allows, is larger than a response may be, so that the call raises a `RuntimeError`. The path is not
  -- empty and names a directory, the depth is at most 16, and the limit of entries is not zero.
  pub follow-IsShown :
      (fuel cursor : ℕ)
      → resolve_directory b.workspace root_name path ≡ ok listing
      → is_nil path ≡ false
      → depth ≤ 16
      → 0 < b.limits.max_tree_entries
      → length tree_entries - cursor < fuel
      → IsShown cursor (follow b root_name path depth fuel cursor)
  unfolding follow
  follow-IsShown zero cursor found filled small some_fit h = absurd (omega (arith, h))
  follow-IsShown (suc fuel) cursor found filled small some_fit h =
      elim (Bool-cases (ltb b.limits.max_response_bytes (answer_size cursor))) [
        | inl y ↦
            let e = ap (λ x. continued x next) called ∙ refused next p y in
            let at : cursor + 0 ≡ cursor = omega arith in
            let large : b.limits.max_response_bytes < answer_size cursor = ground (arith, y) in
            too_large 0 (omega arith)
              (subst (λ x. b.limits.max_response_bytes < answer_size x) (sym at) large) e
        | inr n ↦
            let e = ap (λ x. continued x next) called ∙ answered next p n in
            subst (IsShown cursor) (sym e) (
              page-IsShown next cursor some_fit (λ c q lt.
                follow-IsShown fuel c found filled small some_fit (omega (arith, h, q, lt))))
      ]
    where
      next : ℕ → List Json × Option Failure
      next = λ c. follow b root_name path depth fuel c

      p : Page TreeEntry
      p = page_of b.limits.max_tree_entries cursor tree_entries

      called :
          call b (text "list_tree") (tree_request root_name path depth cursor)
          ≡ measured b (tree_answer root_name path p)
      called = call_list_tree cursor found filled small
