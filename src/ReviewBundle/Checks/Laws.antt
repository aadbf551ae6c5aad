-- ===== src/ReviewBundle/Checks/Laws.antt =====
-- What the checks of single fields went through, when they passed.
use csoj_judger.Prelude.{
  ℕ, zero, suc, ◌≡◌, refl, Bool, true, false, not, Option, none, some, List, [], ◌∷◌, Memᴰ, arith,
}
use csoj_judger.Prelude.Int.{pos, negsuc}
use csoj_judger.Prelude.Order.{Text, nat_ord, list_ord}
use csoj_judger.Prelude.Result.{Result, ok, err, ◌>>◌, raise_if, returned}
use csoj_judger.Json
use csoj_judger.Json.{Json, null, bool, int, real, str, arr, obj, Fields, str?}
use csoj_judger.ReviewBundle.Checks.{
  Libraries, is_trimmed, trimmed, nonempty_string, nonempty_strings, parse_timestamp, timestamp_of,
  timestamp, is_digest, is_digest_value, is_object, is_natural, is_positive,
}

pub not_raised : {E : Type 0} (b : Bool) (e : E) → raise_if b e ≡ ok tt → b ≡ false
not_raised true e h = absurd (cc h)
not_raised false e h = refl

module _ {κ} {E : Type 0} {B : Type κ} where
  -- What a check followed by other code went through.
  pub passed :
      (r : Result E (Unit {0})) (next : Result E B) {b : B}
      → (r >> next) ≡ ok b
      → (r ≡ ok tt) × (next ≡ ok b)
  passed (err e) next h = absurd (cc h)
  passed (ok u) next h = (refl, h)

  pub passed_test :
      (t : Bool) (e : E) (next : Result E B) {b : B}
      → (raise_if (not t) e >> next) ≡ ok b
      → (t ≡ true) × (next ≡ ok b)
  passed_test true e next h = (refl, h)
  passed_test false e next h = absurd (cc h)

  pub passed_guard :
      (t : Bool) (e : E) (next : Result E B) {b : B}
      → (raise_if t e >> next) ≡ ok b
      → (t ≡ false) × (next ≡ ok b)
  passed_guard false e next h = (refl, h)
  passed_guard true e next h = absurd (cc h)

pub trimmed_str :
    (o : Option Json) {s : Text} → trimmed o ≡ ok s → (o ≡ some (str s)) × (is_trimmed s ≡ true)
unfolding trimmed
trimmed_str (some (str s)) h = ground arith
trimmed_str none h = absurd (cc h)
trimmed_str (some null) h = absurd (cc h)
trimmed_str (some (bool x)) h = absurd (cc h)
trimmed_str (some (int x)) h = absurd (cc h)
trimmed_str (some (real x)) h = absurd (cc h)
trimmed_str (some (arr x)) h = absurd (cc h)
trimmed_str (some (obj x)) h = absurd (cc h)

pub string_passed :
    (d : Fields) (k : Text) {s : Text}
    → nonempty_string d k ≡ ok s
    → (Json.get d k ≡ some (str s)) × (is_trimmed s ≡ true)
unfolding nonempty_string
string_passed d k h = trimmed_str (Json.get d k) h

-- Each of the fields is a trimmed string.
pub strings_passed :
    (d : Fields) (ks : List Text) {k : Text}
    → nonempty_strings d ks ≡ ok tt
    → Memᴰ k ks
    → (s : Text) × (Json.get d k ≡ some (str s)) × (is_trimmed s ≡ true)
unfolding nonempty_strings
strings_passed d [] h m = elim m [ ]
strings_passed d (j ∷ ks) h (Memᴰ.head e) =
    let (s, a, b) = returned (nonempty_string d j) (λ _. nonempty_strings d ks) h in
    let (c, t) = string_passed d j a in (s, rw e c, t)
strings_passed d (j ∷ ks) h (Memᴰ.tail m) =
    let (s, a, b) = returned (nonempty_string d j) (λ _. nonempty_strings d ks) h in
    strings_passed d ks b m

module _ (lib : Libraries) where
  pub timestamp_passed :
      (d : Fields) (k : Text) {t : ℕ}
      → timestamp lib d k ≡ ok t
      → (s : Text) × (str? (Json.get d k) ≡ some s) × (parse_timestamp lib s ≡ ok t)
  unfolding timestamp
  timestamp_passed d k {t} h = go (str? (Json.get d k)) refl h
    where
      go :
          (o : Option Text)
          → str? (Json.get d k) ≡ o
          → timestamp_of lib o ≡ ok t
          → (s : Text) × (str? (Json.get d k) ≡ some s) × (parse_timestamp lib s ≡ ok t)
      go none e h = absurd (cc h)
      go (some s) e h = (s, e, h)

pub digest_passed :
    (o : Option Json)
    → is_digest_value o ≡ true
    → (s : Text) × (o ≡ some (str s)) × (is_digest s ≡ true)
digest_passed (some (str s)) h = (s, refl, h)
digest_passed none h = absurd (cc h)
digest_passed (some null) h = absurd (cc h)
digest_passed (some (bool x)) h = absurd (cc h)
digest_passed (some (int x)) h = absurd (cc h)
digest_passed (some (real x)) h = absurd (cc h)
digest_passed (some (arr x)) h = absurd (cc h)
digest_passed (some (obj x)) h = absurd (cc h)

pub object_passed : (o : Option Json) → is_object o ≡ true → (d : Fields) × (o ≡ some (obj d))
object_passed (some (obj d)) h = (d, refl)
object_passed none h = absurd (cc h)
object_passed (some null) h = absurd (cc h)
object_passed (some (bool x)) h = absurd (cc h)
object_passed (some (int x)) h = absurd (cc h)
object_passed (some (real x)) h = absurd (cc h)
object_passed (some (str x)) h = absurd (cc h)
object_passed (some (arr x)) h = absurd (cc h)

pub natural_passed : (o : Option Json) → is_natural o ≡ true → (n : ℕ) × (o ≡ some (int (pos n)))
natural_passed (some (int (pos n))) h = (n, refl)
natural_passed none h = absurd (cc h)
natural_passed (some null) h = absurd (cc h)
natural_passed (some (bool x)) h = absurd (cc h)
natural_passed (some (int (negsuc n))) h = absurd (cc h)
natural_passed (some (real x)) h = absurd (cc h)
natural_passed (some (str x)) h = absurd (cc h)
natural_passed (some (arr x)) h = absurd (cc h)
natural_passed (some (obj x)) h = absurd (cc h)

pub positive_passed :
    (o : Option Json) → is_positive o ≡ true → (n : ℕ) × (o ≡ some (int (pos (suc n))))
positive_passed (some (int (pos zero))) h = absurd (cc h)
positive_passed (some (int (pos (suc n)))) h = (n, refl)
positive_passed none h = absurd (cc h)
positive_passed (some null) h = absurd (cc h)
positive_passed (some (bool x)) h = absurd (cc h)
positive_passed (some (int (negsuc n))) h = absurd (cc h)
positive_passed (some (real x)) h = absurd (cc h)
positive_passed (some (str x)) h = absurd (cc h)
positive_passed (some (arr x)) h = absurd (cc h)
positive_passed (some (obj x)) h = absurd (cc h)
