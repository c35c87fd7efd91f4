-- ===== src/Webot/Geo.antt =====
-- webot/controllers/waypoints_runner/geo/: points and angles.
pub mod Bounds
use p7_kode.Base.{Bool, true, false, if◌then◌else◌}
use p7_kode.Base.Int.{pos}
use p7_kode.Base.Double.{Double}
use p7_kode.Base.Trig.{Trig, two_pi}

pub data PointType : Type 0 where
  global relative : PointType

module _ (d : Double) where
  pub record Point2D (type : PointType) : Type 0 where
    pub x : d.Carrier
    pub y : d.Carrier

  abbrev pub GlobalPoint : Type 0
  GlobalPoint = Point2D global

  abbrev pub RelPoint : Type 0
  RelPoint = Point2D relative

  pub record Angle : Type 0 where
    pub theta : d.Carrier

module _ (d : Double) (t : Trig d) where
  open d use {Carrier, add, sub, mul, sqrt, lt, of_int}
  open t use {pi, neg, div, pow, fmod, sin, cos, atan2}

  unfoldable pub constrain_angle : Carrier → Carrier
  constrain_angle angle =
      let rest = fmod (add angle pi) (two_pi d t) in
      sub (if lt rest (of_int (pos 0)) then add rest (two_pi d t) else rest) pi

  -- Angle(const double angle)
  unfoldable pub make_angle : Carrier → Angle d
  make_angle angle = record { theta = constrain_angle angle }

  -- Point2D::from_polar
  unfoldable pub from_polar : {type : PointType} → Carrier → Angle d → Point2D d type
  from_polar r a = record { x = mul r (cos a.theta); y = mul (neg r) (sin a.theta) }

  abbrev pub add_points : GlobalPoint d → GlobalPoint d → GlobalPoint d
  add_points p1 p2 = record { x = add p1.x p2.x; y = add p1.y p2.y }

  unfoldable pub get_midpoint : GlobalPoint d → GlobalPoint d → GlobalPoint d
  get_midpoint p1 p2 = record {
    x = div (add p1.x p2.x) (of_int (pos 2));
    y = div (add p1.y p2.y) (of_int (pos 2));
  }

  unfoldable pub angle_of_line : GlobalPoint d → GlobalPoint d → Angle d
  angle_of_line p1 p2 = make_angle (atan2 (sub (neg p2.y) (neg p1.y)) (sub p2.x p1.x))

  unfoldable pub euclidean_dist : {type : PointType} → Point2D d type → Point2D d type → Carrier
  euclidean_dist p1 p2 =
      sqrt (add (pow (sub p1.x p2.x) (of_int (pos 2))) (pow (sub p1.y p2.y) (of_int (pos 2))))

  unfoldable pub add_angles : Angle d → Angle d → Angle d
  add_angles a1 a2 = make_angle (add a1.theta a2.theta)

  unfoldable pub sub_angles : Angle d → Angle d → Angle d
  sub_angles a1 a2 = make_angle (sub a1.theta a2.theta)

  unfoldable pub abs_angle : Angle d → Angle d
  abs_angle a = if lt a.theta (of_int (pos 0)) then make_angle (neg a.theta) else make_angle a.theta

  unfoldable pub rotate_point : RelPoint d → Angle d → RelPoint d
  rotate_point p a = record {
    x = add (mul p.y (sin a.theta)) (mul p.x (cos a.theta));
    y = sub (mul p.y (cos a.theta)) (mul p.x (sin a.theta));
  }

  unfoldable pub to_global_coordinates : GlobalPoint d → Angle d → RelPoint d → GlobalPoint d
  to_global_coordinates rel_orig rel_angle rel_point =
      let rotated = rotate_point rel_point rel_angle in
      add_points (record { x = rotated.x; y = rotated.y }) rel_orig
