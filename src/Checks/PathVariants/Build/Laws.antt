-- ===== src/Checks/PathVariants/Build/Laws.antt =====
-- What the variants of one URL have in common, and the control that ends them.
use Prim.Native.Char.{Char}
use mathlib.Core.List.{List}
use x402_conformance.Prelude.{String, ◌≡◌, ◌≢◌, true, false}
use x402_conformance.Checks.PathVariants.{Url, urlunsplit, PathVariant, control_label}
use x402_conformance.Checks.PathVariants.Build.{absolute_form}

-- A bypass candidate for the URL, under a label that is not the control's: the URL with another path,
-- which gives another text. Only the absolute form keeps the URL.
pub record Candidate (split : Url) (v : PathVariant) : Type 0 where
  pub path : String
  pub is_url : v.url ≡ urlunsplit (record split { path = path })
  pub not_control : v.label ≢ control_label
  pub absolute : v.absolute_form ≡ true → v.url ≡ urlunsplit split
  pub differs : v.absolute_form ≡ false → v.url ≢ urlunsplit split
