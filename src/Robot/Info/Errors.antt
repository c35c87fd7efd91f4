-- ===== src/Robot/Info/Errors.antt =====
-- robot/src/info.cpp: values that `Info::from_json` refuses.
use p7_kode.Base.{◌≡◌, refl, Option, none, err, invalid_robot_info, ◌⊎◌, inl, inr, Bool-cases}
use p7_kode.Base.Text.{Bytes, codes}
use p7_kode.Base.Double.{Double}
use p7_kode.Base.Json.{Json}
use p7_kode.Base.JsonLaws.{JsonLaws, is_some}
use p7_kode.Robot.Info.{from_json}

module _ (d : Double) (j : Json d) (laws : JsonLaws j) where
  -- An object without a location or without an id is refused with InvalidRobotInfo, whatever else it has.
  pub from_json-lacking :
      (json : j.Value) (members : Bytes → Option j.Value)
      → laws.IsObject json members
      → (members (codes "location") ≡ none) ⊎ (members (codes "id") ≡ none)
      → from_json d j json ≡ err invalid_robot_info
  unfolding from_json
  from_json-lacking json members h (inl e) =
      rw (laws.is_member-IsObject json members (codes "location") h, e) refl
  from_json-lacking json members h (inr e) =
      rw (laws.is_member-IsObject json members (codes "location") h)
        (elim (Bool-cases (is_some (members (codes "location")))) [
          | inl t ↦ rw (t, laws.is_member-IsObject json members (codes "id") h, e) refl
          | inr f ↦ rw f refl
        ])
