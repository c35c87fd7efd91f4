-- ===== src/Wbt/Parser/Fuel.antt =====
-- wbt-translator/src/webots_parser.cpp: the loop of `Parser::parse_stream` ends, since each round reads a
-- word.
use p7_kode.Base.{
  ℕ, zero, suc, ◌≤◌, ◌<◌, ◌≡◌, refl, sym, subst, Exception, end_of_stream, Result, ok, err, arith,
  length, if◌then◌else◌, none, some, Option-cases, Bool, true, false, Bool-cases, inl, inr, ◌≢◌,
}
use p7_kode.Base.Exec.{Exec, lift, continue, handle, ◌>>=◌}
use p7_kode.Base.Text.{Bytes, codes, bytes_eq}
use p7_kode.Base.Double.{Double}
use p7_kode.Wbt.World.{WaypointType, Waypoint, Ast}
use p7_kode.Wbt.Parser.{
  unexpected_end, waypoint_type_of, Input, read_token, no_end, parse_waypoint, World, read_node,
  next_round, stream_loop, parse_stream, Fields, complete, read_field, fields_loop, no_fields,
}
use p7_kode.Wbt.Parser.Ends.{
  left, Reads, Reads->>=, ReadsWord, read_token-ReadsWord, lift-Reads, if-Reads, read_field-Reads,
  fields_loop-Reads,
}

unexpected-Reads :
    (A : Type 0) (e : Exception) (is : Input)
    → left (handle {A = A} unexpected_end (err e) is).1 ≤ left is
unexpected-Reads A end_of_stream is = omega arith
unexpected-Reads A e is = omega arith

handled :
    (A : Type 0) (n : ℕ) (r : Result A × Input)
    → left r.1 ≤ n
    → left (handle unexpected_end r.0 r.1).1 ≤ n
handled A n (ok a, s) l = l
handled A n (err e, s) l = let l' = unexpected-Reads A e s in omega arith

no_end-Reads : (A : Type 0) (m : Exec Input A) → Reads m → Reads (no_end m)
no_end-Reads A m h is = handled A (left is) (m is) (h is)

-- A round that goes on has less to read than before.
abbrev pub Shortens : {A : Type 0} → Input → Result A × Input → Type 0
Shortens is (ok a, s) = left s < left is
Shortens is (err e, s) = Unit

module _ (d : Double) (stod : Bytes → Result d.Carrier) where
  parse_waypoint-Reads : (name : Bytes) → Reads (parse_waypoint d stod name)
  unfolding parse_waypoint
  parse_waypoint-Reads name is =
      Reads->>= (lift (waypoint_type_of name)) _ (lift-Reads (waypoint_type_of name))
        (λ type.
          no_end-Reads (Waypoint d) _ (fields_loop-Reads d stod (suc (length is.unread)) type _))
        is

  read_node-Reads : (w : World d stod) (token : Bytes) → Reads (read_node d stod w token)
  unfolding read_node
  read_node-Reads w token =
      if-Reads d stod _ _ _
        (Reads->>= (parse_waypoint d stod token) _ (parse_waypoint-Reads token)
          (λ p is. omega arith))
        (if-Reads d stod (bytes_eq token (codes "Elisa3")) _ _ (λ is. omega arith)
          (λ is. omega arith))

  round-Shortens :
      (w : World d stod) (is : Input) → Shortens is ((read_token >>= read_node d stod w) is)
  unfolding ReadsWord
  round-Shortens w is = go (read_token is) (read_token-ReadsWord is)
    where
      after :
          (b : ℕ) (r : Result (World d stod) × Input) → b < left is → left r.1 ≤ b → Shortens is r
      after b (ok w', s) h l = omega arith
      after b (err e, s) h l = tt

      go :
          (r : Result Bytes × Input)
          → ReadsWord is r
          → Shortens is (continue (read_node d stod w) r.0 r.1)
      go (ok token, s) h = after (left s) (read_node d stod w token s) h (read_node-Reads w token s)
      go (err e, s) h = tt

  -- The rounds of the loop of parse_waypoint, without fuel: they end where all fields are there, and with
  -- the exception of a round that throws.
  pub data Fills (type : WaypointType)
      : Fields d stod → Input → Result (Waypoint d) × Input → Type 0 where
    filled :
        (f : Fields d stod) (is : Input) (waypoint : Waypoint d)
        → complete d stod type f ≡ some waypoint
        → Fills type f is (ok waypoint, is)
    stops :
        (f : Fields d stod) (is s : Input) (e : Exception)
        → complete d stod type f ≡ none
        → (read_token >>= read_field d stod f) is ≡ (err e, s)
        → Fills type f is (err e, s)
    reads :
        (f f' : Fields d stod) (is s : Input) (r : Result (Waypoint d) × Input)
        → complete d stod type f ≡ none
        → (read_token >>= read_field d stod f) is ≡ (ok f', s)
        → Fills type f' s r
        → Fills type f is r

  -- The rounds of the loop of parse_stream, without fuel: they end at the end of the file, where a round
  -- finds nothing more to read, and with any other exception that a round throws.
  pub data Streams : World d stod → Input → Result (World d stod) × Input → Type 0 where
    at_eof : (w : World d stod) (is : Input) → is.eof ≡ true → Streams w is (ok w, is)
    no_more :
        (w : World d stod) (is s : Input)
        → is.eof ≡ false
        → (read_token >>= read_node d stod w) is ≡ (err end_of_stream, s)
        → Streams w is (ok w, s)
    fails :
        (w : World d stod) (is s : Input) (e : Exception)
        → is.eof ≡ false
        → e ≢ end_of_stream
        → (read_token >>= read_node d stod w) is ≡ (err e, s)
        → Streams w is (err e, s)
    reads_on :
        (w w' : World d stod) (is s : Input) (r : Result (World d stod) × Input)
        → is.eof ≡ false
        → (read_token >>= read_node d stod w) is ≡ (ok w', s)
        → Streams w' s r
        → Streams w is r

  pub fields_step :
      (fuel : ℕ) (type : WaypointType) (f : Fields d stod) (is : Input)
      → (read_token >>= λ token. read_field d stod f token >>= fields_loop d stod fuel type) is
        ≡ (read_token >>= read_field d stod f >>= fields_loop d stod fuel type) is
  fields_step fuel type f is = go (read_token is)
    where
      go :
          (r : Result Bytes × Input)
          → continue (λ token. read_field d stod f token >>= fields_loop d stod fuel type) r.0 r.1
            ≡ continue
                (fields_loop d stod fuel type)
                (continue (read_field d stod f) r.0 r.1).0
                (continue (read_field d stod f) r.0 r.1).1
      go (ok token, s) = refl
      go (err e, s) = refl

  pub field-Shortens :
      (f : Fields d stod) (is : Input) → Shortens is ((read_token >>= read_field d stod f) is)
  unfolding ReadsWord
  field-Shortens f is = go (read_token is) (read_token-ReadsWord is)
    where
      after :
          (b : ℕ) (r : Result (Fields d stod) × Input) → b < left is → left r.1 ≤ b → Shortens is r
      after b (ok f', s) h l = omega arith
      after b (err e, s) h l = tt

      go :
          (r : Result Bytes × Input)
          → ReadsWord is r
          → Shortens is (continue (read_field d stod f) r.0 r.1)
      go (ok token, s) h =
          after (left s) (read_field d stod f token s) h (read_field-Reads d stod f token s)
      go (err e, s) h = tt

  fields_loop-Fills :
      (fuel : ℕ) (type : WaypointType) (f : Fields d stod) (is : Input)
      → left is < fuel
      → Fills type f is (fields_loop d stod fuel type f is)
  unfolding fields_loop
  fields_loop-Fills zero type f is h = absurd (omega arith)
  fields_loop-Fills (suc fuel) type f is h = elim (Option-cases (complete d stod type f)) [
    | inl e ↦
        rw (fields_loop, e, fields_step fuel type f is)
          (go ((read_token >>= read_field d stod f) is) refl (field-Shortens f is) e
            (λ f' s l. fields_loop-Fills fuel type f' s (omega arith)))
    | inr (waypoint, e) ↦ rw (fields_loop, e) (filled f is waypoint e)
  ]
    where
      go :
          (r : Result (Fields d stod) × Input)
          → (read_token >>= read_field d stod f) is ≡ r
          → Shortens is r
          → complete d stod type f ≡ none
          → ((f' : Fields d stod) (s : Input)
              → left s < left is
              → Fills type f' s (fields_loop d stod fuel type f' s))
          → Fills type f is (continue (fields_loop d stod fuel type) r.0 r.1)
      go (ok f', s) e l lacking next = reads f f' is s _ lacking e (next f' s l)
      go (err x, s) e l lacking next = stops f is s x lacking e

  stream_loop-Streams :
      (fuel : ℕ) (w : World d stod) (is : Input)
      → left is < fuel
      → Streams w is (stream_loop d stod fuel w is)
  unfolding stream_loop
  stream_loop-Streams zero w is h = absurd (omega arith)
  stream_loop-Streams (suc fuel) w is h = elim (Bool-cases is.eof) [
    | inl e ↦ subst chosen (sym e) (at_eof w is e)
    | inr e ↦ subst chosen (sym e) (
        go ((read_token >>= read_node d stod w) is) refl (round-Shortens w is) e
          (λ w' s l. stream_loop-Streams fuel w' s (omega arith)))
  ]
    where
      chosen : Bool → Type 0
      chosen b = Streams w is (
          if b
          then (ok w, is)
          else next_round d stod (stream_loop d stod fuel) w
              ((read_token >>= read_node d stod w) is))

      failed :
          (x : Exception) (s : Input)
          → (read_token >>= read_node d stod w) is ≡ (err x, s)
          → is.eof ≡ false
          → Streams w is (next_round d stod (stream_loop d stod fuel) w (err x, s))
      failed end_of_stream s e f = no_more w is s f e
      failed x s e f = fails w is s x f (λ g. cc) e

      go :
          (r : Result (World d stod) × Input)
          → (read_token >>= read_node d stod w) is ≡ r
          → Shortens is r
          → is.eof ≡ false
          → ((w' : World d stod) (s : Input)
              → left s < left is
              → Streams w' s (stream_loop d stod fuel w' s))
          → Streams w is (next_round d stod (stream_loop d stod fuel) w r)
      go (ok w', s) e l f next = reads_on w w' is s _ f e (next w' s l)
      go (err x, s) e l f next = failed x s e f

  -- On every stream both loops of the parser end by themselves after finitely many rounds: that of
  -- parse_stream at the end of the file, where nothing more can be read or with an exception, and that of
  -- parse_waypoint with a waypoint that has all its fields or with an exception. The result is that of
  -- the last round, and no round more is taken.
  pub parse_stream-Streams :
      (nodes : Ast d) (is : Input)
      → Streams (record { nodes = nodes; number_of_robots = 0 }) is (parse_stream d stod nodes is)
        × ((type : WaypointType)
            → Fills type
                (no_fields d stod)
                is
                (fields_loop d stod (suc (length is.unread)) type (no_fields d stod) is))
  unfolding parse_stream
  parse_stream-Streams nodes is = (
    stream_loop-Streams (suc (length is.unread)) (record { nodes = nodes; number_of_robots = 0 }) is
        (omega arith),
    λ type. fields_loop-Fills (suc (length is.unread)) type (no_fields d stod) is (omega arith),
  )
