-- ===== src/Prelude/TextOrder.antt =====
-- The order in which Python sorts texts is a strict total order.
use Prim.Native.Nat.{Ordering}
use Prim.Native.String.{String, compare}
use Prim.Native.String.compare.{nil-cons, cons-nil, cons-cons}
use mathlib.Core.Path.{◌≡◌}
use native.Mathlib.Omega.{arith}

-- s < t
abbrev pub Before : String → String → Type 0
Before s t = compare s t ≡ Ordering.lt

pub Before-trans : (s t u : String) → Before s t → Before t u → Before s u
Before-trans String.[] String.[] u h k = cc
Before-trans String.[] (String.◌∷◌ d t) String.[] h k = cc (cons-nil d t)
Before-trans String.[] (String.◌∷◌ d t) (String.◌∷◌ e u) h k = nil-cons e u
Before-trans (String.◌∷◌ c s) String.[] u h k = cc (cons-nil c s)
Before-trans (String.◌∷◌ c s) (String.◌∷◌ d t) String.[] h k = cc (cons-nil d t)
Before-trans (String.◌∷◌ c s) (String.◌∷◌ d t) (String.◌∷◌ e u) h k =
    ground (arith, cons-cons c d s t, cons-cons d e t u, cons-cons c e s u, Before-trans s t u)

pub Before-of_gt : (s t : String) → compare s t ≡ Ordering.gt → Before t s
Before-of_gt String.[] String.[] h = cc
Before-of_gt String.[] (String.◌∷◌ d t) h = cc (nil-cons d t)
Before-of_gt (String.◌∷◌ c s) String.[] h = nil-cons c s
Before-of_gt (String.◌∷◌ c s) (String.◌∷◌ d t) h =
    ground (arith, cons-cons c d s t, cons-cons d c t s, Before-of_gt s t)
