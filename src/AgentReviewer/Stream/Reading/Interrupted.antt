-- ===== src/AgentReviewer/Stream/Reading/Interrupted.antt =====
-- A stream that ends before its last event is no answer.
use csoj_judger.Prelude.{
  ℕ, ◌+◌, ◌≡◌, refl, subst, ◌≢◌, inl, inr, Bool, true, false, not, Option, none, some, List, [],
  ◌∷◌, ◌++◌, Memᴰ, is_nil, length, ltb, arith, Bool-cases, if◌then◌else◌,
}
use csoj_judger.Prelude.Order.{Text, text, ◌===◌, ===_iff, nat_ord, list_ord}
use csoj_judger.Prelude.Result.{Result, ok, err, ◌>>=◌, ◌>>◌, raise_if, returned, ok_injective}
use csoj_judger.Prelude.Text.{join, contains, starts_with_char}
use csoj_judger.Json.{Fields}
use csoj_judger.AgentTools.Listing.{rstrip_newlines}
use csoj_judger.AgentReviewer.Stream.{
  StreamError, malformed, interrupted, Stream, consume_json, consume_event,
}
use csoj_judger.AgentReviewer.Stream.Reading.{
  Wire, max_response_bytes, field_name, field_value, add_line, Read, read_events, last_event,
  new_stream, stream_answer, read_stream,
}

abbrev pub NoneIsDone : List Text → Type 0
NoneIsDone values = (v : Text) → Memᴰ v values → (v === text "[DONE]") ≡ false

contains-append : (a b : Text) → contains 10 (a ++ (10 ∷ b)) ≡ true
contains-append [] b = ground arith
contains-append (c ∷ a) b = ground (arith, contains-append a b)

join_not_done :
    (values : List Text)
    → NoneIsDone values
    → is_nil values ≡ false
    → (join 10 values === text "[DONE]") ≡ false
join_not_done [] h e = absurd (cc e)
join_not_done (v ∷ []) h e = h v (Memᴰ.head refl)
join_not_done (v ∷ u ∷ vs) h e = elim (Bool-cases (join 10 (v ∷ u ∷ vs) === text "[DONE]")) [
  | inl y ↦
      let same = (===_iff (join 10 (v ∷ u ∷ vs)) (text "[DONE]")).0 y in
      let found : contains 10 (text "[DONE]") ≡ true =
        subst (λ t. contains 10 t ≡ true) same (contains-append v (join 10 (u ∷ vs))) in
      absurd (not_contained found)
  | inr n ↦ n
]
  where
    not_contained : contains 10 (text "[DONE]") ≢ true
    not_contained h = absurd (cc h)

added_none :
    (values : List Text) (line : Text)
    → NoneIsDone values
    → (field_value line === text "[DONE]") ≡ false
    → NoneIsDone (add_line values line)
unfolding add_line
added_none values line h e = elim (Bool-cases (starts_with_char b':' line)) [
  | inl y ↦ rw y h
  | inr n ↦ elim (Bool-cases (field_name line === text "data")) [
    | inl z ↦ rw (n, z) (λ v m. more values h v m)
    | inr z ↦ rw (n, z) h
  ]
]
  where
    more :
        (vs : List Text)
        → NoneIsDone vs
        → (v : Text) → Memᴰ v (vs ++ (field_value line ∷ []))
        → (v === text "[DONE]") ≡ false
    more [] g v (Memᴰ.head p) = rw p e
    more [] g v (Memᴰ.tail m) = elim m [ ]
    more (u ∷ us) g v (Memᴰ.head p) = g v (Memᴰ.head p)
    more (u ∷ us) g v (Memᴰ.tail m) = more us (λ w n. g w (Memᴰ.tail n)) v m

module _ (w : Wire) where
  event_not_done :
      (s : Stream) (values : List Text) {p : Bool × Stream}
      → NoneIsDone values
      → consume_event w.is_zero w.loads s values ≡ ok p
      → p.0 ≡ false
  unfolding consume_event
  event_not_done s values {p} h e = go (is_nil values) refl e
    where
      late :
          consume_json w.is_zero s (w.loads (join 10 values)) >>= (λ t. ok (false, t)) ≡ ok p
          → p.0 ≡ false
      late e =
          let (t, a, b) =
            returned (consume_json w.is_zero s (w.loads (join 10 values))) (λ t. ok (false, t)) e in
          cc b

      tested :
          (b : Bool)
          → (join 10 values === text "[DONE]") ≡ b
          → b ≡ false
          → (if b
              then ok (true, s)
              else consume_json w.is_zero s (w.loads (join 10 values)) >>= λ t. ok (false, t))
            ≡ ok p
          → p.0 ≡ false
      tested true q f e = absurd (cc f)
      tested false q f e = late e

      go :
          (b : Bool)
          → is_nil values ≡ b
          → (if b
              then ok (false, s)
              else if join 10 values === text "[DONE]"
              then ok (true, s)
              else consume_json w.is_zero s (w.loads (join 10 values)) >>= λ t. ok (false, t))
            ≡ ok p
          → p.0 ≡ false
      go true q e = cc e
      go false q e = tested (join 10 values === text "[DONE]") refl (join_not_done values h q) e

  -- No line of the stream has the value of the last event.
  abbrev pub HasNoDone : List (List ℕ) → Type 0
  HasNoDone lines =
      (raw : List ℕ)
      → Memᴰ raw lines
      → (line : Text) → w.decode raw ≡ some line
      → (field_value (rstrip_newlines line) === text "[DONE]") ≡ false

  -- What the reading of such a stream ends with: the last event has not come, and is not in the data of
  -- the event that the end of the stream ends.
  abbrev NotDone : Read → Type 0
  NotDone r = (r.0 ≡ false) × NoneIsDone r.1.0

  read_events-NotDone :
      (total : ℕ) (values : List Text) (s : Stream) (lines : List (List ℕ)) {r : Read}
      → NoneIsDone values
      → HasNoDone lines
      → read_events w total values s lines ≡ ok r
      → NotDone r
  unfolding read_events
  read_events-NotDone total values s [] h n e = subst NotDone (ok_injective _ refl e) (refl, h)
  read_events-NotDone total values s (raw ∷ rest) {r} h n e =
      bounded
        (λ event t k e.
          read_events-NotDone (total + length raw) event t rest k (λ x m. n x (Memᴰ.tail m)) e)
        (ltb max_response_bytes (total + length raw)) e
    where
      Step : Type 0
      Step =
          (event : List Text) (t : Stream)
          → NoneIsDone event
          → read_events w (total + length raw) event t rest ≡ ok r
          → NotDone r

      event_ends : Bool × Stream → Result StreamError Read
      event_ends p = elim p.0 [
        | true ↦ ok (true, ([], p.1))
        | false ↦ read_events w (total + length raw) [] p.1 rest
      ]

      line_read : Text → Result StreamError Read
      line_read line = elim line [
        | [] ↦ consume_event w.is_zero w.loads s values >>= event_ends
        | c ∷ l ↦ read_events w (total + length raw) (add_line values (c ∷ l)) s rest
      ]

      raw_read : Option Text → Result StreamError Read
      raw_read o = elim o [ none ↦ err malformed | some line ↦ line_read (rstrip_newlines line) ]

      event : Step → (p : Bool × Stream) → p.0 ≡ false → event_ends p ≡ ok r → NotDone r
      event f (true, t) q e = absurd (cc q)
      event f (false, t) q e = f [] t (λ v m. elim m [ ]) e

      stripped :
          Step
          → (line : Text) → (field_value line === text "[DONE]") ≡ false
          → line_read line ≡ ok r
          → NotDone r
      stripped f [] q e =
          let (p, a, b) = returned (consume_event w.is_zero w.loads s values) event_ends e in
          event f p (event_not_done s values h a) b
      stripped f (c ∷ l) q e = f (add_line values (c ∷ l)) s (added_none values (c ∷ l) h q) e

      decoded : Step → (o : Option Text) → w.decode raw ≡ o → raw_read o ≡ ok r → NotDone r
      decoded f none q e = absurd (cc e)
      decoded f (some line) q e =
          stripped f (rstrip_newlines line) (n raw (Memᴰ.head refl) line q) e

      bounded :
          Step
          → (b : Bool) → (if b then err malformed else raw_read (w.decode raw)) ≡ ok r
          → NotDone r
      bounded f true e = absurd (cc e)
      bounded f false e = decoded f (w.decode raw) refl e

  -- A stream of which no line has the value that marks the end is answered with an error, never with a result.
  pub read_stream_interrupted :
      (lines : List (List ℕ)) (answer : Fields) → HasNoDone lines → read_stream w lines ≢ ok answer
  unfolding read_stream
  read_stream_interrupted lines answer n e =
      let (r, a, e1) =
        returned (read_events w 0 [] (new_stream w) lines)
          (λ r. last_event w r >>= λ p. raise_if (not p.0) interrupted >> stream_answer w p.1) e in
      let (p, b, e2) =
        returned (last_event w r) (λ p. raise_if (not p.0) interrupted >> stream_answer w p.1) e1 in
      let q = read_events-NotDone 0 [] (new_stream w) lines (λ v m. elim m [ ]) n a in
      refused p (last_not_done r q b) e2
    where
      last_not_done :
          (r : Read) → NotDone r → {p : Bool × Stream} → last_event w r ≡ ok p → p.0 ≡ false
      last_not_done (true, (values, s)) (q, k) e = absurd (cc q)
      last_not_done (false, (values, s)) (q, k) e = event_not_done s values k e

      refused :
          (p : Bool × Stream)
          → p.0 ≡ false
          → raise_if (not p.0) interrupted >> stream_answer w p.1 ≡ ok answer
          → ⊥
      refused (true, s) q e = absurd (cc q)
      refused (false, s) q e = absurd (cc e)
