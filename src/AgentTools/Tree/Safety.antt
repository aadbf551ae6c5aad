-- ===== src/AgentTools/Tree/Safety.antt =====
-- A tool reaches a file of the workspace only through the workspace's own directories.
use csoj_judger.Prelude.{ℕ, ◌≡◌, ◌≢◌, refl, ◌↔◌, false, List, [], ◌∷◌, any, arith, subst}
use csoj_judger.Prelude.Order.{Text, nat_ord, list_ord}
use csoj_judger.Prelude.Result.{ok, ◌>>=◌, returned}
use csoj_judger.Prelude.Text.{starts_with_char}
use csoj_judger.AgentTools.Tree.{
  Node, file, directory, symlink, special, Entries, AgentWorkspace, root, is_refused, is_parent,
  pure_parts, safe_parts, stat, enter, resolve_parts, resolve, regular, resolve_file,
}

-- The node is no symbolic link.
abbrev pub IsReal : Node → Type 0
IsReal n = (target : Node) → n ≢ symlink target

-- From a node down to another by the names of a path, each an entry of a directory and none a symbolic
-- link.
pub data IsBelow : Node → List Text → Node → Type 0 where
  here : (n : Node) → IsBelow n [] n
  below :
      (d : Entries) (name : Text) (child : Node) (rest : List Text) (n : Node)
      → stat d name ≡ ok child
      → IsReal child
      → IsBelow child rest n
      → IsBelow (directory d) (name ∷ rest) n

enter-IsReal : (n m : Node) → enter n ≡ ok m → (n ≡ m) × IsReal n
enter-IsReal (file c) m h = (cc h, λ target e. absurd (cc e))
enter-IsReal (directory d) m h = (cc h, λ target e. absurd (cc e))
enter-IsReal (symlink t) m h = absurd (cc h)
enter-IsReal special m h = (cc h, λ target e. absurd (cc e))

IsReal-enter : (n : Node) → IsReal n → enter n ≡ ok n
IsReal-enter (file c) h = refl
IsReal-enter (directory d) h = refl
IsReal-enter (symlink t) h = absurd (h t refl)
IsReal-enter special h = refl

resolve_parts-IsBelow :
    (n : Node) (parts : List Text) (m : Node)
    → IsReal n
    → resolve_parts n parts ≡ ok m
    → IsBelow n parts m
unfolding resolve_parts
resolve_parts-IsBelow n [] m real h =
    let e : n ≡ m = ground arith in subst (λ x. IsBelow n [] x) e (here n)
resolve_parts-IsBelow (file c) (name ∷ rest) m real h = absurd (cc h)
resolve_parts-IsBelow special (name ∷ rest) m real h = absurd (cc h)
resolve_parts-IsBelow (symlink t) (name ∷ rest) m real h = absurd (real t refl)
resolve_parts-IsBelow (directory d) (name ∷ rest) m real h =
    let (found, e, h') = returned (stat d name) (λ f. enter f >>= λ c. resolve_parts c rest) h in
    let (child, e', h'') = returned (enter found) (λ c. resolve_parts c rest) h' in
    let (same, safe) = enter-IsReal found child e' in
    let safe' : IsReal child = subst IsReal same safe in
    below d name child rest m (cc (e, same)) safe' (resolve_parts-IsBelow child rest m safe' h'')

IsBelow-resolve_parts :
    (n : Node) (parts : List Text) (m : Node) → IsBelow n parts m → resolve_parts n parts ≡ ok m
unfolding resolve_parts
IsBelow-resolve_parts n parts m (here x) = refl
IsBelow-resolve_parts n parts m (below d name child rest x e real h) =
    rw e (rw (IsReal-enter child real) (IsBelow-resolve_parts child rest m h))

-- The path is not refused, is relative and has no `..` component, and leads to the file.
abbrev pub IsReachable : AgentWorkspace → Text → Text → List ℕ → Type 0
IsReachable w root_name path content =
    (top : Entries) × (root w root_name ≡ ok top)
    × (is_refused path ≡ false)
    × (starts_with_char b'/' path ≡ false)
    × (any is_parent (pure_parts path) ≡ false)
    × IsBelow (directory top) (pure_parts path) (file content)

-- A path names a file for the tools exactly when it is not refused, is relative, has no `..`
-- component, and its components lead from the root's directory to that regular file through entries
-- none of which is a symbolic link, wherever a link would lead.
pub resolve_file_iff :
    (w : AgentWorkspace) (root_name path : Text) (content : List ℕ)
    → (resolve_file w root_name path ≡ ok content) ↔ IsReachable w root_name path content
unfolding resolve_file resolve safe_parts
resolve_file_iff w root_name path content = (forth, back)
  where
    regular_file : (n : Node) → regular n ≡ ok content → n ≡ file content
    regular_file (file c) h = ground arith
    regular_file (directory d) h = ground arith
    regular_file (symlink t) h = ground arith
    regular_file special h = ground arith

    forth : resolve_file w root_name path ≡ ok content → IsReachable w root_name path content
    forth h =
        let (node, e, r) = returned (resolve w root_name path) regular h in
        let (top, e1, e2) =
          returned (root w root_name)
            (λ t. safe_parts path >>= λ parts. resolve_parts (directory t) parts) e in
        let (parts, e3, e4) =
          returned (safe_parts path) (λ ps. resolve_parts (directory top) ps) e2 in
        let same : node ≡ file content = regular_file node r in
        let a : is_refused path ≡ false = ground (arith, e3) in
        let b : starts_with_char b'/' path ≡ false = ground (arith, e3) in
        let c : any is_parent (pure_parts path) ≡ false = ground (arith, e3) in
        let p : pure_parts path ≡ parts = ground (arith, e3, a, b, c) in
        (
          top,
          e1,
          a,
          b,
          c,
          resolve_parts-IsBelow (directory top) (pure_parts path) (file content)
              (λ target e. absurd (cc e)) (cc (e4, p, same)),
        )

    back : IsReachable w root_name path content → resolve_file w root_name path ≡ ok content
    back (top, e1, a, b, c, r) =
        let q = IsBelow-resolve_parts (directory top) (pure_parts path) (file content) r in
        rw e1 (rw a (rw (b, c) (rw q refl)))
