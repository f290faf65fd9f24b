-- ===== src/Client/Grid/Zoom.antt =====
-- client/src/InfiniteGridView.cpp: the scale of the view. A `qreal` is a value of a type that is a parameter,
-- and so is its arithmetic, with the rounding that it has: nothing is assumed of it.
use multilife.Prelude.{ℕ, Bool, true, false, not, ◌&&◌, ltb, if◌then◌else◌}

-- `literal a b` is the constant that the digits `a` make, with `b` of them behind the point.
pub record Reals {ℓ} (Real : Type ℓ) : Type ℓ where
  pub literal : ℕ → ℕ → Real
  pub times : Real → Real → Real
  pub over : Real → Real → Real
  pub less : Real → Real → Bool

-- `m_initialScaleApplied`, and the diagonal of the view's transform.
pub record View {ℓ} (Real : Type ℓ) : Type ℓ where
  pub initial_scale_applied : Bool
  pub scale : Real

module _ {ℓ} {Real : Type ℓ} (r : Reals Real) where
  abbrev pub q_min : Real → Real → Real
  q_min a b = if r.less a b then a else b

  abbrev pub q_max : Real → Real → Real
  q_max a b = if r.less a b then b else a

  abbrev pub min_scale : Real
  min_scale = r.literal 1 2

  -- `qMax(1, viewport()->width())`
  abbrev pub viewport_width : ℕ → Real
  viewport_width width = r.literal (if ltb 1 width then width else 1) 0

  unfoldable pub max_scale : ℕ → Real
  max_scale width = q_max (r.literal 5 0) (r.over (viewport_width width) (r.literal 10 0))

  -- `scale(factor, factor)` multiplies the transform.
  abbrev pub scale_to : Real → View Real → View Real
  scale_to new_scale v = record v { scale = r.times v.scale (r.over new_scale v.scale) }

  -- Whether the wheel turns up, and the width of the view; the result says whether `viewRectChanged` is
  -- emitted.
  unfoldable pub wheel_event : Bool → ℕ → View Real → View Real × Bool
  wheel_event up width v =
      if up
      then (if not (r.less v.scale (max_scale width))
          then (v, false)
          else (scale_to (q_min (r.times v.scale (r.literal 11 1)) (max_scale width)) v, true))
      else (if not (r.less min_scale v.scale)
          then (v, false)
          else (scale_to (q_max (r.over v.scale (r.literal 11 1)) min_scale) v, true))

  -- The first time that the view has a width, about thirty cells are made visible; `resetTransform` makes
  -- the scale 1.
  unfoldable pub resize_event : ℕ → View Real → View Real
  resize_event width v =
      if not v.initial_scale_applied && ltb 0 width
      then record {
        initial_scale_applied = true;
        scale =
            r.times (r.literal 1 0)
              (q_max min_scale (r.over (viewport_width width) (r.literal 30 0)));
      }
      else v
