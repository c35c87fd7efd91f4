-- ===== src/Webot/Controller/Sensors/Mirror.antt =====
-- webot/controllers/waypoints_runner/robot.cpp: the order of the ranges that `update_sensor_values` stores.
use p7_kode.Base.{
  ℕ, zero, suc, ◌+◌, ◌-◌, ◌/◌, ◌%◌, ◌<◌, ◌≤◌, ◌≡◌, ◌≢◌, refl, sym, ap, subst, ◌∙◌, Option, none,
  some, true, false, Bool-cases, List, [], ◌∷◌, ◌⊎◌, inl, inr, arith, length, get_elem?, ltb,
  if◌then◌else◌,
}
use native.Mathlib.Nat.{mod-eq_of_lt, add-mod_right}
use p7_kode.Base.Int.{pos}
use p7_kode.Base.Text.{codes}
use p7_kode.Base.Double.{Double}
use p7_kode.Base.Trig.{Trig}
use p7_kode.Webot.Geo.{GlobalPoint, get_midpoint, euclidean_dist}
use p7_kode.Webot.Controller.{Controller, get_position}
use p7_kode.Webot.Controller.Loops.{get_elem?_below, Gives, before_or_last, for_up-Gives}
use p7_kode.Webot.Controller.Sensors.{assign, mirrored, in_range, store_range, update_sensor_values}

-- The image turned round in two parts: the first quarter, and the rest.
unfoldable pub reflected : ℕ → ℕ → ℕ
reflected resolution i =
    if ltb i (resolution / 4) then resolution / 4 - 1 - i else resolution + resolution / 4 - 1 - i

mirrored-reflected : (n i : ℕ) → i < n → mirrored n i ≡ reflected n i
unfolding mirrored reflected
mirrored-reflected n i h = elim (split_at (n / 4)) [
  | inl lt ↦
      let e : (i + n - n / 4) % n ≡ i + n - n / 4 = mod-eq_of_lt (omega arith) in
      rw e (ground arith)
  | inr le ↦
      let e : i + n - n / 4 ≡ i - n / 4 + n = omega arith in
      let f : (i + n - n / 4) % n ≡ i - n / 4 =
        ap (λ z. z % n) e ∙ add-mod_right (i - n / 4) n ∙ mod-eq_of_lt (omega arith) in
      rw f (ground arith)
]
  where
    split_at : (q : ℕ) → (i < q) ⊎ (q ≤ i)
    split_at q = ground arith

reflected_bounded : (n i : ℕ) → i < n → reflected n i < n
unfolding reflected
reflected_bounded n i h = ground arith

reflected-reflected : (n i : ℕ) → i < n → reflected n (reflected n i) ≡ i
unfolding reflected
reflected-reflected n i h = ground arith

module _ {A : Type 0} where
  -- What an assignment inside a vector leaves.
  abbrev IsAssigned : ℕ → A → List A → List A → Type 0
  IsAssigned i a v v' =
      (length v' ≡ length v)
      × (get_elem? v' i ≡ some a)
      × ((k : ℕ) → k ≢ i → get_elem? v' k ≡ get_elem? v k)

  assign-IsAssigned :
      (i : ℕ) (a : A) (v : List A) → i < length v → Gives (assign i a v) (IsAssigned i a v)
  unfolding assign
  assign-IsAssigned i a [] h = absurd (omega arith)
  assign-IsAssigned zero a (b ∷ v) h = (a ∷ v, refl, (refl, refl, other))
    where
      other : (k : ℕ) → k ≢ zero → get_elem? (a ∷ v) k ≡ get_elem? (b ∷ v) k
      other zero ne = absurd (ne refl)
      other (suc k) ne = refl
  assign-IsAssigned (suc i) a (b ∷ v) h =
      let (v', e, (l, s, o)) = assign-IsAssigned i a v (omega arith) in
      (b ∷ v', (rw e refl), (ap suc l, s, other v' o))
    where
      other :
          (v' : List A)
          → ((k : ℕ) → k ≢ i → get_elem? v' k ≡ get_elem? v k)
          → (k : ℕ) → k ≢ suc i
          → get_elem? (b ∷ v') k ≡ get_elem? (b ∷ v) k
      other v' o zero ne = refl
      other v' o (suc k) ne = o k (λ e. ne (ap suc e))

module _ (d : Double) (t : Trig d) (c : Controller d) where
  -- The first ranges of the image are in their places.
  abbrev IsStored : ℕ → List (Option d.Carrier) → Type 0
  IsStored n values =
      (length values ≡ c.lidar_resolution)
      × ((k : ℕ)
          → k < c.lidar_resolution
          → reflected c.lidar_resolution k < n
          → Gives (get_elem? c.readings.range_image (reflected c.lidar_resolution k))
              (λ dist. get_elem? values k ≡ some (in_range d t c dist)))

  assign-IsStored :
      (n : ℕ) (dist : d.Carrier) (values values' : List (Option d.Carrier))
      → n < c.lidar_resolution
      → get_elem? c.readings.range_image n ≡ some dist
      → IsAssigned (reflected c.lidar_resolution n) (in_range d t c dist) values values'
      → IsStored n values
      → IsStored (suc n) values'
  assign-IsStored n dist values values' h e (l', s, o) (l, stored) = (
    l' ∙ l,
    λ k below lt. elim (before_or_last (reflected c.lidar_resolution k) n lt) [
      | inl earlier ↦
          let (dist', a, b) = stored k below earlier in
          (dist', a, (o k (λ same. absurd (later k same earlier)) ∙ b))
      | inr now ↦ (dist, (rw now e), (rw (place k below now) s))
    ],
  )
    where
      place :
          (k : ℕ)
          → k < c.lidar_resolution
          → reflected c.lidar_resolution k ≡ n
          → k ≡ reflected c.lidar_resolution n
      place k below now =
          sym (reflected-reflected c.lidar_resolution k below)
          ∙ ap (reflected c.lidar_resolution) now

      later : (k : ℕ) → k ≡ reflected c.lidar_resolution n → reflected c.lidar_resolution k < n → ⊥
      later k same earlier =
          let e1 =
            ap (reflected c.lidar_resolution) same ∙ reflected-reflected c.lidar_resolution n h in
          omega arith

  store_range-IsStored :
      (n : ℕ) (values : List (Option d.Carrier))
      → n < c.lidar_resolution
      → length c.readings.range_image ≡ c.lidar_resolution
      → IsStored n values
      → Gives (store_range d t c n values) (IsStored (suc n))
  store_range-IsStored n values h image stored =
      let (dist, e, _) = get_elem?_below c.readings.range_image n (omega arith) in
      let m = reflected c.lidar_resolution n in
      let (values', f, assigned) =
        assign-IsAssigned m (in_range d t c dist) values
          (subst (λ z. m < z) (sym stored.0) (reflected_bounded c.lidar_resolution n h)) in
      (
        values',
        (rw (e, mirrored-reflected c.lidar_resolution n h) f),
        assign-IsStored n dist values values' h e assigned stored,
      )

  -- What is kept of a range: the range itself where it is from 1.01 times the least to 0.99 times the
  -- greatest range of the lidar, and nothing where it is not.
  abbrev pub Filters : d.Carrier → Option d.Carrier → Type 0
  Filters dist kept =
      let low = t.le (d.mul (d.literal (codes "1.01")) c.lidar_min_range) dist in
      let high = t.le dist (d.mul (d.literal (codes "0.99")) c.lidar_max_range) in
      ((kept ≡ some dist) × (low ≡ true) × (high ≡ true))
      ⊎ ((kept ≡ none) × ((low ≡ false) ⊎ (high ≡ false)))

  in_range-Filters : (dist : d.Carrier) → Filters dist (in_range d t c dist)
  unfolding in_range
  in_range-Filters dist =
      elim (Bool-cases (t.le (d.mul (d.literal (codes "1.01")) c.lidar_min_range) dist)) [
        | inl e ↦
            elim (Bool-cases (t.le dist (d.mul (d.literal (codes "0.99")) c.lidar_max_range))) [
              | inl f ↦ inl ((rw (e, f) refl), e, f)
              | inr f ↦ inr ((rw (e, f) refl), inr f)
            ]
        | inr e ↦ inr ((rw e refl), inl e)
      ]

  -- The point is half-way between the two GPS devices, on the floor.
  abbrev pub IsMiddle : GlobalPoint d → Type 0
  IsMiddle p =
      let front = c.readings.front_gps in
      let back = c.readings.back_gps in
      (p.x ≡ t.div (d.add front.x back.x) (d.of_int (pos 2)))
      × (p.y ≡ t.div (d.add front.z back.z) (d.of_int (pos 2)))

  get_position-IsMiddle : IsMiddle (get_position d t c)
  unfolding get_position get_midpoint
  get_position-IsMiddle = (refl, refl)

  -- The result has what is kept of every range of the image at the reflected index, and the sensors, the
  -- position and the distance to the goal are the new ones.
  abbrev pub IsRead : Option (Controller d) → Type 0
  IsRead result =
      (values : List (Option d.Carrier)) × (place : GlobalPoint d) × (result
        ≡ some (record c {
          sensor_readings = c.readings.distance_sensors;
          position = place;
          cur_dist2goal = d.sqrt (
              d.add (t.pow (d.sub place.x c.goal.x) (d.of_int (pos 2)))
                (t.pow (d.sub place.y c.goal.y) (d.of_int (pos 2))));
          lidar_range_values = values;
        }))
      × IsMiddle place
      × (length values ≡ c.lidar_resolution)
      × ((k : ℕ)
          → k < c.lidar_resolution
          → (dist : d.Carrier) × (kept : Option d.Carrier) × (get_elem? c.readings.range_image
                (reflected c.lidar_resolution k)
              ≡ some dist)
            × (get_elem? values k ≡ some kept)
            × Filters dist kept)

  -- Where the image of the lidar and lidar_range_values have as many values as the lidar says, the
  -- sensors are read without reading or writing behind an end, and lidar_range_values then holds at
  -- every index the range of the image at the reflected index, and no value where this range is not from
  -- 1.01 times the least to 0.99 times the greatest range of the lidar. The position is half-way between
  -- the GPS devices, the distance to the goal is that from there, the sensors are the new ones, and
  -- nothing else has changed.
  pub update_sensor_values-IsRead :
      length c.readings.range_image ≡ c.lidar_resolution
      → length c.lidar_range_values ≡ c.lidar_resolution
      → IsRead (update_sensor_values d t c)
  unfolding update_sensor_values euclidean_dist
  update_sensor_values-IsRead image old =
      let (values, e, (l, stored)) =
        for_up-Gives IsStored c.lidar_resolution (store_range d t c) c.lidar_range_values
          (old, λ k h g. absurd (omega arith)) (λ i s h. store_range-IsStored i s h image) in
      (
        values,
        get_position d t c,
        (rw e refl),
        get_position-IsMiddle,
        l,
        λ k h.
            let (dist, seen, kept) = stored k h (reflected_bounded c.lidar_resolution k h) in
            (dist, in_range d t c dist, seen, kept, in_range-Filters dist),
      )
