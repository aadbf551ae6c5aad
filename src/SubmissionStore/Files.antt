-- ===== src/SubmissionStore/Files.antt =====
-- The file reads of src/oj_checker/submission_store.py, on a model of the mounted file systems: each
-- component is opened relative to its parent, and no symbolic link is followed.
use csoj_judger.Prelude.{
  ℕ, suc, Bool, Option, none, some, List, [], ◌∷◌, length, take, ltb, if◌then◌else◌,
}
use csoj_judger.Prelude.Order.{Text, text, ◌===◌, list_ord, nat_ord}
use csoj_judger.Prelude.Result.{Result, ok, err, ◌>>=◌}
use csoj_judger.SubmissionStore.Base.{StoreError, unsafe_submission_path, submission_file_error}

-- What a name in a directory stands for. `sealed` is an entry that `os.open` refuses for a reason
-- other than ELOOP or ENOTDIR (no permission, an I/O error, a socket); `special` is a device or a
-- pipe.
mutual
  pub data Node : Type 0 where
    file : List ℕ → Node
    directory : Entries → Node
    symlink : Text → Node
    special sealed : Node

  pub data Entries : Type 0 where
    end : Entries
    entry : Text → Node → Entries → Entries

unfoldable pub find : Entries → Text → Option Node
find end name = none
find (entry n node rest) name = if n === name then some node else find rest name

-- `os.open(..., O_DIRECTORY | O_NOFOLLOW)`, with the errors as the handler maps them.
unfoldable pub open_directory : Option Node → Result StoreError Entries
open_directory none = err submission_file_error
open_directory (some sealed) = err submission_file_error
open_directory (some (directory entries)) = ok entries
open_directory (some _) = err unsafe_submission_path

-- `os.open(..., O_NOFOLLOW)` and the test for a regular file: the content.
unfoldable pub open_regular : Option Node → Result StoreError (List ℕ)
open_regular none = err submission_file_error
open_regular (some sealed) = err submission_file_error
open_regular (some (file content)) = ok content
open_regular (some _) = err unsafe_submission_path

-- The walk over `parts`, the last of which is the file.
unfoldable pub open_parts : Entries → List Text → Result StoreError (List ℕ)
unfolding find open_directory open_regular
open_parts d [] = err submission_file_error
open_parts d (name ∷ []) = open_regular (find d name)
open_parts d (name ∷ next ∷ rest) = do
  child ← open_directory (find d name)
  open_parts child (next ∷ rest)

unfoldable pub open_regular_file_beneath :
    Option Node → Text → List Text → Result StoreError (List ℕ)
unfolding open_parts open_directory
open_regular_file_beneath oj_root submission_id parts = do
  top ← open_directory oj_root
  open_parts top (text "submissions" ∷ submission_id ∷ text "input" ∷ parts)

-- `except SubmissionFileError` goes on to the next root; an unsafe path ends the search.
abbrev pub or_next :
    Result StoreError (List ℕ) → Result StoreError (List ℕ) → Result StoreError (List ℕ)
or_next (err submission_file_error) next = next
or_next r next = r

unfoldable pub open_regular_file_from_roots :
    List (Option Node) → Text → List Text → Result StoreError (List ℕ)
open_regular_file_from_roots [] submission_id parts = err submission_file_error
open_regular_file_from_roots (root ∷ roots) submission_id parts =
    or_next (open_regular_file_beneath root submission_id parts)
      (open_regular_file_from_roots roots submission_id parts)

-- `data = file.read(limit + 1)`, cut to the limit, and whether it was longer.
unfoldable pub read_prefix : ℕ → List ℕ → List ℕ × Bool
read_prefix limit content =
    let data' = take (suc limit) content in (take limit data', ltb limit (length data'))

unfoldable pub read_file_from_roots :
    List (Option Node) → Text → List Text → ℕ → Result StoreError (List ℕ × Bool)
read_file_from_roots roots submission_id parts read_limit = do
  content ← open_regular_file_from_roots roots submission_id parts
  ok (read_prefix read_limit content)

unfoldable pub validate_file_from_roots :
    List (Option Node) → Text → List Text → Result StoreError (Unit {0})
validate_file_from_roots roots submission_id parts = do
  content ← open_regular_file_from_roots roots submission_id parts
  ok tt
