-- ===== src/Wbt/Parser.antt =====
-- wbt-translator/src/webots_parser.cpp: `Parser`. What std::stod makes of a text is an argument.
pub mod Tokens
pub mod Words
pub mod Waypoints
pub mod Ends
pub mod Fuel
use p7_kode.Base.{
  ℕ, zero, suc, ◌+◌, ◌-◌, ◌^◌, ◌≡◌, refl, Bool, true, false, ◌||◌, Option, none, some, List, [],
  ◌∷◌, ◌++◌, Exception, Result, ok, err, end_of_stream, malformed_world_file, if◌then◌else◌, ◌==◌,
  length,
}
use p7_kode.Base.Exec.{Exec, pure, throw, lift, ◌>>=◌, try_catch, handle}
use p7_kode.Base.Int.{ℤ, pos, negsuc}
use p7_kode.Base.IntMap.{insert}
use p7_kode.Base.Text.{Bytes, codes, bytes_eq}
use p7_kode.Base.Decimal.{stoi, is_space}
use p7_kode.Base.Double.{Double}
use p7_kode.Wbt.World.{WaypointType, Translation, Waypoint, Ast}
use p7_kode.Wbt.Adjlist.{parse_adjlist}

-- The stream: what is not read yet, and is.eof(). Its extractions fail only at the end of the text.
pub record Input : Type 0 where
  pub unread : Bytes
  pub eof : Bool

abbrev pub skip_space : Bytes → Bytes
skip_space [] = []
skip_space (c ∷ s) = let rest = skip_space s in if is_space c then rest else c ∷ s

-- The word at the front, and what is behind it; `eof` when the word ends with the text.
unfoldable pub word : Bytes → Bytes × Input
word [] = ([], record { unread = []; eof = true })
word (c ∷ s) =
    let rest = word s in
    if is_space c then ([], record { unread = c ∷ s; eof = false }) else (c ∷ rest.0, rest.1)

abbrev pub word_or_end : Bytes → Result Bytes × Input
word_or_end [] = (err end_of_stream, record { unread = []; eof = true })
word_or_end (c ∷ s) = (ok (word (c ∷ s)).0, (word (c ∷ s)).1)

unfoldable pub read_token : Exec Input Bytes
read_token is = if is.eof then (err end_of_stream, is) else word_or_end (skip_space is.unread)

-- The text up to the closing quote, a backslash in front of a byte left out.
unfoldable pub quoted : Bytes → Bytes × Input
quoted [] = ([], record { unread = []; eof = true })
quoted (c ∷ []) =
    if c == b'"'
    then ([], record { unread = []; eof = false })
    else if c == b'\\'
    then ([], record { unread = []; eof = true })
    else (c ∷ [], record { unread = []; eof = true })
quoted (c ∷ e ∷ s) =
    let next = quoted (e ∷ s) in
    let behind = quoted s in
    if c == b'"'
    then ([], record { unread = e ∷ s; eof = false })
    else if c == b'\\'
    then (e ∷ behind.0, behind.1)
    else (c ∷ next.0, next.1)

abbrev pub string_at : Bytes → Bytes × Input
string_at [] = ([], record { unread = []; eof = true })
string_at (c ∷ s) = if c == b'"' then quoted s else word (c ∷ s)

unfoldable pub read_string : Exec Input Bytes
read_string is =
    if is.eof
    then (ok [], is)
    else (ok (string_at (skip_space is.unread)).0, (string_at (skip_space is.unread)).1)

unfoldable pub parse_id : Exec Input ℤ
parse_id = read_token >>= λ token. lift (stoi token)

-- catch (EndOfStreamException &e) { throw MalformedWorldFileError(…); }
abbrev pub unexpected_end : {A : Type 0} → Exception → Option (Exec Input A)
unexpected_end end_of_stream = some (throw malformed_world_file)
unexpected_end e = none

abbrev pub no_end : {A : Type 0} → Exec Input A → Exec Input A
no_end m is = try_catch m unexpected_end is

-- The key of the map is a size_t.
abbrev pub key_of_id : ℤ → ℤ
key_of_id (pos n) = pos n
key_of_id (negsuc n) = pos (2 ^ 64 - 1 - n)

abbrev waypoint_type_of : Bytes → Result WaypointType
waypoint_type_of name =
    if bytes_eq name (codes "Waypoint")
    then ok WaypointType.via
    else if bytes_eq name (codes "Station")
    then ok WaypointType.station
    else if bytes_eq name (codes "Endpoint")
    then ok WaypointType.end_point
    else err malformed_world_file

module _ (d : Double) (stod : Bytes → Result d.Carrier) where
  read_double : Exec Input d.Carrier
  read_double = read_token >>= λ token. lift (stod token)

  unfoldable pub parse_translation : Exec Input (Translation d)
  unfolding read_double
  parse_translation = read_double >>= λ x.
      read_double >>= λ y. read_double >>= λ z. pure (record { x = x; y = y; z = z })

  -- The fields that are read so far: a field that is still needed is `none`.
  pub record Fields : Type 0 where
    pub id : Option ℤ
    pub adjlist : Option (List ℤ)
    pub translation : Option (Translation d)

  unfoldable pub complete : WaypointType → Fields → Option (Waypoint d)
  complete waypoint_type f = elim f.id [
    | none ↦ none
    | some id ↦ elim f.adjlist [
      | none ↦ none
      | some adjlist ↦ elim f.translation [
        | none ↦ none
        | some translation ↦ some (record {
          id = id;
          adjlist = adjlist;
          translation = translation;
          waypoint_type = waypoint_type;
        })
      ]
    ]
  ]

  -- The if of the loop.
  unfoldable pub read_field : Fields → Bytes → Exec Input Fields
  read_field f token =
      if bytes_eq token (codes "translation")
      then (parse_translation >>= λ t. pure (record f { translation = some t }))
      else if bytes_eq token (codes "id")
      then (parse_id >>= λ i. pure (record f { id = some i }))
      else if bytes_eq token (codes "adjList")
      then (read_string >>= λ s.
          lift (parse_adjlist s) >>= λ ids. pure (record f { adjlist = some ids }))
      else pure f

  -- while (needId || needAdj || needTranslation)
  unfoldable pub fields_loop : ℕ → WaypointType → Fields → Exec Input (Waypoint d)
  fields_loop zero waypoint_type f is = (err end_of_stream, is)
  fields_loop (suc fuel) waypoint_type f is = elim (complete waypoint_type f) [
    | some waypoint ↦ (ok waypoint, is)
    | none ↦ (read_token >>= λ token. read_field f token >>= fields_loop fuel waypoint_type) is
  ]

  abbrev pub no_fields : Fields
  no_fields = record { id = none; adjlist = none; translation = none }

  unfoldable pub parse_waypoint : Bytes → Exec Input (Waypoint d)
  parse_waypoint name is =
      (lift (waypoint_type_of name) >>= λ waypoint_type.
      no_end (fields_loop (suc (length is.unread)) waypoint_type no_fields))
        is

  pub record World : Type 0 where
    pub nodes : Ast d
    pub number_of_robots : ℕ

  unfoldable pub read_node : World → Bytes → Exec Input World
  read_node w token =
      if bytes_eq token (codes "Waypoint")
        || bytes_eq token (codes "Station")
        || bytes_eq token (codes "Endpoint")
      then (parse_waypoint token >>= λ p.
          pure (record w { nodes = insert (key_of_id p.id) p w.nodes }))
      else if bytes_eq token (codes "Elisa3")
      then pure (record w { number_of_robots = suc w.number_of_robots })
      else pure w

  -- A round of parse_stream; the exception at the end of the stream ends the loop.
  abbrev pub next_round :
      (World → Exec Input World) → World → Result World × Input → Result World × Input
  next_round go_on w (ok w', is) = go_on w' is
  next_round go_on w (err end_of_stream, is) = (ok w, is)
  next_round go_on w (err e, is) = (err e, is)

  unfoldable pub stream_loop : ℕ → World → Exec Input World
  stream_loop zero w is = (ok w, is)
  stream_loop (suc fuel) w is =
      let round = next_round (stream_loop fuel) w ((read_token >>= read_node w) is) in
      if is.eof then (ok w, is) else round

  unfoldable pub parse_stream : Ast d → Exec Input World
  parse_stream nodes is =
      stream_loop (suc (length is.unread)) (record { nodes = nodes; number_of_robots = 0 }) is
