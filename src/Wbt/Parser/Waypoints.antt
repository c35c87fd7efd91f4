-- ===== src/Wbt/Parser/Waypoints.antt =====
-- wbt-translator/src/webots_parser.cpp: `parse_waypoint` on a node of a world file.
use p7_kode.Base.{
  ℕ, suc, ◌≡◌, ◌≢◌, refl, subst, ◌<◌, ◌⊎◌, inl, inr, Option-cases, length, zero, none, some, List,
  [], ◌∷◌, ◌++◌, map, Result, ok, All, arith,
}
use p7_kode.Base.Int.{ℤ, InInt}
use p7_kode.Base.Text.{Bytes, codes}
use p7_kode.Base.Decimal.{to_string, stoi-to_string}
use p7_kode.Base.Double.{Double}
use p7_kode.Util.Split.{join}
use p7_kode.Wbt.World.{WaypointType, Translation, Waypoint}
use p7_kode.Wbt.Adjlist.{parse_adjlist-text}
use p7_kode.Wbt.Parser.{
  Input, read_token, Fields, complete, read_field, fields_loop, parse_waypoint,
}
use p7_kode.Wbt.Parser.Fuel.{Shortens, fields_step, field-Shortens}
use p7_kode.Base.Exec.{◌>>=◌}
use p7_kode.Wbt.Parser.Tokens.{
  before, IsGraph, IsSpaced, IsGap, IsGap-IsSpaced, then_word, then_quoted, read_token-word,
  read_string-quoted,
}
use p7_kode.Wbt.Parser.Words.{
  join-IsPlain, to_string-IsGraph, to_string-some, parse_id-word, read_translation, read_id,
  read_adj_list, not_equal, IsNumber, parse_translation-words,
}

abbrev pub type_name : WaypointType → Bytes
type_name WaypointType.via = codes "Waypoint"
type_name WaypointType.station = codes "Station"
type_name WaypointType.end_point = codes "Endpoint"

module _ (d : Double) (stod : Bytes → Result d.Carrier) where
  -- What stands in a node: a field that is read, or any other word, such as a brace, a name or a
  -- number. The first text is the white space in front, which may be that of a new line.
  pub data Item : Type 0 where
    ignored : Bytes → Bytes → Item
    translated : Bytes → (u v w : Bytes) → Translation d → Item
    identified : Bytes → ℤ → Item
    connected : Bytes → ℤ → List ℤ → Item

  abbrev pub item_text : Item → Bytes → Bytes
  item_text (ignored gap word) s = gap ++ (word ++ s)
  item_text (translated gap u v w place) s =
      gap ++ (codes "translation" ++ then_word u (then_word v (then_word w s)))
  item_text (identified gap id) s = gap ++ (codes "id" ++ then_word (to_string id) s)
  item_text (connected gap n ids) s =
      gap ++ (codes "adjList" ++ then_quoted (join b',' (map to_string (n ∷ ids))) s)

  abbrev pub IsItem : Item → Type 0
  IsItem (ignored gap word) =
      IsGap gap
      × (word ≢ [])
      × All IsGraph word
      × (word ≢ codes "translation")
      × (word ≢ codes "id")
      × (word ≢ codes "adjList")
  IsItem (translated gap u v w place) =
      IsGap gap × IsNumber d stod u place.x × IsNumber d stod v place.y × IsNumber d stod w place.z
  IsItem (identified gap id) = IsGap gap × InInt id
  IsItem (connected gap n ids) = IsGap gap × All InInt (n ∷ ids)

  abbrev pub items_text : List Item → Bytes → Bytes
  items_text [] s = s
  items_text (item ∷ items) s = item_text item (items_text items s)

  -- The fields behind an item.
  abbrev pub with_item : Item → Fields d stod → Fields d stod
  with_item (ignored gap word) f = f
  with_item (translated gap u v w place) f = record f { translation = some place }
  with_item (identified gap id) f = record f { id = some id }
  with_item (connected gap n ids) f = record f { adjlist = some (n ∷ ids) }

  abbrev pub IsLacking : Fields d stod → Type 0
  IsLacking f = (f.id ≡ none) ⊎ ((f.adjlist ≡ none) ⊎ (f.translation ≡ none))

  -- The items make the fields those of the waypoint: a field is lacking up to the last item, and none
  -- behind it.
  abbrev pub Fill : Fields d stod → List Item → Waypoint d → Type 0
  Fill f [] waypoint =
      (f.id ≡ some waypoint.id)
      × (f.adjlist ≡ some waypoint.adjlist)
      × (f.translation ≡ some waypoint.translation)
  Fill f (item ∷ items) waypoint = IsLacking f × Fill (with_item item f) items waypoint

  complete_lacking :
      (t : WaypointType) (f : Fields d stod) → IsLacking f → complete d stod t f ≡ none
  unfolding complete
  complete_lacking t f (inl e) = rw (complete, e) refl
  complete_lacking t f (inr (inl e)) = elim (Option-cases f.id) [
    | inl g ↦ rw (complete, g) refl
    | inr (id, g) ↦ rw (complete, g, e) refl
  ]
  complete_lacking t f (inr (inr e)) = elim (Option-cases f.id) [
    | inl g ↦ rw (complete, g) refl
    | inr (id, g) ↦ elim (Option-cases f.adjlist) [
      | inl h ↦ rw (complete, g, h) refl
      | inr (ids, h) ↦ rw (complete, g, h, e) refl
    ]
  ]

  item_text-IsSpaced : (item : Item) (s : Bytes) → IsItem item → IsSpaced (item_text item s)
  item_text-IsSpaced (ignored gap word) s h = IsGap-IsSpaced gap _ h.0
  item_text-IsSpaced (translated gap u v w place) s h = IsGap-IsSpaced gap _ h.0
  item_text-IsSpaced (identified gap id) s h = IsGap-IsSpaced gap _ h.0
  item_text-IsSpaced (connected gap n ids) s h = IsGap-IsSpaced gap _ h.0

  items_text-IsSpaced :
      (items : List Item) (s : Bytes)
      → All IsItem items
      → IsSpaced s
      → IsSpaced (items_text items s)
  items_text-IsSpaced [] s h k = k
  items_text-IsSpaced (item ∷ items) s (h, hs) k = item_text-IsSpaced item (items_text items s) h

  one_field :
      (f f' : Fields d stod) (is between rest : Input) (token : Bytes)
      → read_token is ≡ (ok token, between)
      → read_field d stod f token between ≡ (ok f', rest)
      → (read_token >>= read_field d stod f) is ≡ (ok f', rest)
  one_field f f' is between rest token g h = rw g h

  read_item :
      (f : Fields d stod) (item : Item) (s : Bytes)
      → IsItem item
      → IsSpaced s
      → (read_token >>= read_field d stod f) (before (item_text item s))
        ≡ (ok (with_item item f), before s)
  unfolding read_field
  read_item f (ignored gap []) s (g, some_word, _, _, _, _) k = absurd (some_word refl)
  read_item f (ignored gap (c ∷ w)) s (g, _, graph, no_translation, no_id, no_list) k =
      one_field f f _ _ _ (c ∷ w) (read_token-word gap c w s g.1 graph k) (
        rw
          (
            read_field,
            not_equal (c ∷ w) (codes "translation") no_translation,
            not_equal (c ∷ w) (codes "id") no_id,
            not_equal (c ∷ w) (codes "adjList") no_list,
          )
          refl)
  read_item f (translated gap u v w place) s (g, hu, hv, hw) k =
      one_field f (record f { translation = some place }) _ _ _ _ (read_translation gap _ g.1 refl)
        (rw (read_field, parse_translation-words d stod u v w s _ _ _ hu hv hw k) refl)
  read_item f (identified gap id) s (g, hi) k =
      one_field f (record f { id = some id }) _ _ _ _ (read_id gap _ g.1 refl)
        (rw
          (
            read_field,
            parse_id-word (to_string id) s id (to_string-some id hi) (to_string-IsGraph id) k
                (stoi-to_string id hi),
          )
          refl)
  read_item f (connected gap n ids) s (g, hs) k =
      one_field f (record f { adjlist = some (n ∷ ids) }) _ _ _ _ (read_adj_list gap _ g.1 refl)
        (rw (read_field, read_string-quoted _ s (join-IsPlain n ids), parse_adjlist-text n ids hs)
          refl)

  fields_loop-items :
      (fuel : ℕ) (t : WaypointType) (f : Fields d stod) (items : List Item) (s : Bytes)
      (waypoint : Waypoint d)
      → length (items_text items s) < fuel
      → All IsItem items
      → IsSpaced s
      → Fill f items waypoint
      → fields_loop d stod fuel t f (before (items_text items s))
        ≡ (ok (record waypoint { waypoint_type = t }), before s)
  unfolding fields_loop complete
  fields_loop-items zero t f items s waypoint enough h k fill = absurd (omega arith)
  fields_loop-items (suc fuel) t f [] s waypoint enough h k (id, adjlist, translation) =
      rw (fields_loop, complete, id, adjlist, translation) refl
  fields_loop-items (suc fuel) t f (item ∷ items) s waypoint enough (h, hs) k (lacks, fill) =
      let step = read_item f item (items_text items s) h (items_text-IsSpaced items s hs k) in
      let shorter =
        subst (λ r. Shortens (before (item_text item (items_text items s))) r) step
          (field-Shortens d stod f (before (item_text item (items_text items s)))) in
      rw
        (
          fields_loop,
          complete_lacking t f lacks,
          fields_step d stod fuel t f (before (item_text item (items_text items s))),
          step,
        )
        (fields_loop-items fuel t (with_item item f) items s waypoint (omega arith) hs k fill)

  -- The text of a node is read back by parse_waypoint as the waypoint with the given type, whatever the
  -- order of its fields, with other words such as the brace, names and numbers between them, and with
  -- any white space in front of each of these: where the first items give a translation, as three words
  -- that std::stod reads, an id and one or more ids next to it, all ints, the last of them completes
  -- these fields, and white space follows, the waypoint has the translation, the id and the ids that
  -- were given last, and the stream is left behind the last of these items. In a field the words have
  -- one blank between them.
  pub parse_waypoint-items_text :
      (t : WaypointType) (items : List Item) (s : Bytes) (waypoint : Waypoint d)
      → All IsItem items
      → IsSpaced s
      → Fill (record { id = none; adjlist = none; translation = none }) items waypoint
      → parse_waypoint d stod (type_name t) (before (items_text items s))
        ≡ (ok (record waypoint { waypoint_type = t }), before s)
  unfolding parse_waypoint
  parse_waypoint-items_text WaypointType.via items s waypoint h k fill =
      rw
        (
          parse_waypoint,
          fields_loop-items (suc (length (items_text items s))) WaypointType.via _ items s waypoint
              (omega arith) h k fill,
        )
        refl
  parse_waypoint-items_text WaypointType.station items s waypoint h k fill =
      rw
        (
          parse_waypoint,
          fields_loop-items (suc (length (items_text items s))) WaypointType.station _ items s
              waypoint (omega arith) h k fill,
        )
        refl
  parse_waypoint-items_text WaypointType.end_point items s waypoint h k fill =
      rw
        (
          parse_waypoint,
          fields_loop-items (suc (length (items_text items s))) WaypointType.end_point _ items s
              waypoint (omega arith) h k fill,
        )
        refl
